-- ===== src/Enginenetx/Policy/Names.antt =====
-- bridgesAddrs and bridgesDomains of pkg/enginenetx/bridgespolicy.go, and testHelpersDomains of
-- testhelperspolicy.go.
use ooni_probe_engine.Prelude.{String, List, [], ◌∷◌}

abbrev pub bridges_addrs : List String
bridges_addrs = "162.55.247.208" ∷ []

abbrev pub test_helpers_domains : List String
test_helpers_domains =
    "0.th.ooni.org" ∷ "1.th.ooni.org" ∷ "2.th.ooni.org" ∷ "3.th.ooni.org"
    ∷ "d33d1gs9kpq1c5.cloudfront.net" ∷ []

unfoldable pub bridges_domains : List String
bridges_domains =
    "adtm.spreadshirts.net" ∷ "alb.reddit.com" ∷ "a.loveholidays.com" ∷ "api.giphy.com"
    ∷ "api.nextgen.guardianapps.co.uk" ∷ "api.trademe.co.nz" ∷ "app.launchdarkly.com"
    ∷ "apps.voxmedia.com" ∷ "assets0.uswitch.com" ∷ "assets.boots.com" ∷ "assets.dunelm.com"
    ∷ "assets.guim.co.uk" ∷ "assets.hearstapps.com" ∷ "assets-jpcust.jwpsrv.com"
    ∷ "assets.nymag.com" ∷ "assets.thecut.com" ∷ "atreseries.atresmedia.com" ∷ "cdn.bfldr.com"
    ∷ "cdn.concert.io" ∷ "cdn.contentful.com" ∷ "cdn.ketchjs.com" ∷ "cdn.laredoute.com"
    ∷ "cdn.polyfill.io" ∷ "cdn.speedcurve.com" ∷ "cdn.sstatic.net" ∷ "cdn.taboola.com"
    ∷ "client.grubstreet.com" ∷ "client.nymag.com" ∷ "client-registry.mutinycdn.com"
    ∷ "client.thecut.com" ∷ "client.thestrategist.co.uk" ∷ "client.vulture.com"
    ∷ "compote.slate.com" ∷ "concertads-configs.vox-cdn.com" ∷ "contributions.guardianapis.com"
    ∷ "display.bidder.taboola.com" ∷ "edgemesh.webflow.io" ∷ "embed.api.video"
    ∷ "epsf.ticketmaster.com" ∷ "fastly.com" ∷ "fastly.jsdelivr.net" ∷ "fast.ssqt.io"
    ∷ "fast.wistia.com" ∷ "fdyn.pubwise.io" ∷ "fonts.nymag.com" ∷ "foursquare.com"
    ∷ "frend-assets.freetls.fastly.net" ∷ "f.vimeocdn.com" ∷ "github.githubassets.com"
    ∷ "global.ketchcdn.com" ∷ "helpersng.taboola.com" ∷ "hips.hearstapps.com" ∷ "i.guimcode.co.uk"
    ∷ "i.guim.co.uk" ∷ "i.insider.com" ∷ "images.mutinycdn.com" ∷ "images.taboola.com"
    ∷ "interactive.guim.co.uk" ∷ "i.vimeocdn.com" ∷ "js-agent.newrelic.com" ∷ "js.sentry-cdn.com"
    ∷ "linktr.ee" ∷ "login.nine.com.au" ∷ "lux.speedcurve.com" ∷ "martech.condenastdigital.com"
    ∷ "media0.giphy.com" ∷ "media1.giphy.com" ∷ "media2.giphy.com" ∷ "media3.giphy.com"
    ∷ "media.giphy.com" ∷ "media.newyorker.com" ∷ "media.wired.com" ∷ "mparticle.weather.com"
    ∷ "mv.outbrain.com" ∷ "newrelic.com" ∷ "next.ticketmaster.com" ∷ "nm.realtyninja.com"
    ∷ "pingback.giphy.com" ∷ "pips.taboola.com" ∷ "pitchfork.com" ∷ "pixel.condenastdigital.com"
    ∷ "player.ex.co" ∷ "pm-widget.taboola.com" ∷ "polyfill.io" ∷ "prd.jwpltx.com"
    ∷ "pyxis.nymag.com" ∷ "rapid-cdn.yottaa.com" ∷ "rtd-tm.everesttech.net" ∷ "s1.ticketm.net"
    ∷ "s3-media0.fl.yelpcdn.com" ∷ "slate.com" ∷ "sourcepoint.theguardian.com" ∷ "ssl.p.jwpcdn.com"
    ∷ "sstc.dunelm.com" ∷ "static.ads-twitter.com" ∷ "static.filestackapi.com"
    ∷ "static.klaviyo.com" ∷ "static.theguardian.com" ∷ "static-tracking.klaviyo.com" ∷ "s.w-x.co"
    ∷ "trademe.tmcdn.co.nz" ∷ "trc.taboola.com" ∷ "t.seenthis.se" ∷ "uploads.guim.co.uk"
    ∷ "video.seenthis.se" ∷ "vidstat.taboola.com" ∷ "vod.api.video" ∷ "vulcan.condenastdigital.com"
    ∷ "widget.perfectmarket.com" ∷ "www.allure.com" ∷ "www.amazeelabs.com"
    ∷ "www.architecturaldigest.com" ∷ "www.blackpepper.co.nz" ∷ "www.bonappetit.com"
    ∷ "www.cntraveler.com" ∷ "www.drupal.org" ∷ "www.dunelm.com" ∷ "www.epicurious.com"
    ∷ "www.fastly.com" ∷ "www.filestack.com" ∷ "www.giphy.com" ∷ "www.glamour.com" ∷ "www.gq.com"
    ∷ "www.insider.com" ∷ "www.jimdo.com" ∷ "www.loveholidays.com" ∷ "www.madeiramadeira.com.br"
    ∷ "www.newrelic.com" ∷ "www.newyorker.com" ∷ "www.pronovias.com" ∷ "www.redditstatic.com"
    ∷ "www.rvu.co.uk" ∷ "www.self.com" ∷ "www.shazam.com" ∷ "www.shondaland.com" ∷ "www.split.io"
    ∷ "www.spreadgroup.com" ∷ "www.spreadshirt.com" ∷ "www.taboola.com" ∷ "www.teenvogue.com"
    ∷ "www.thecut.com" ∷ "www.theguardian.com" ∷ "www.them.us" ∷ "www.ticketmaster.com"
    ∷ "www.trademe.co.nz" ∷ "www.vanityfair.com" ∷ "www.vogue.com" ∷ "www.wikihow.com"
    ∷ "www.wired.com" ∷ "www.yelp.com" ∷ "x.giphy.com" ∷ "yelp.com" ∷ []
