-- ===== src/Stats/Clients.antt =====
-- internal/stats/clients.go: the app behind a user agent. The letters of a user agent are bytes:
-- `strings.ToLower` of other letters makes no ASCII letter, save for those of two (the Kelvin sign
-- and the dotted I), which are not modelled. `subscribers_match` stands for the regular expression
-- that finds the digits.
use kringkasting.Base.{ℕ, Option, none, some, List, [], ◌∷◌, ltb, if◌then◌else◌, Bytes, codes}
use kringkasting.Base.Ascii.{contains, decimal, to_lower}

-- `clientRules`
abbrev pub client_rules : List (Bytes × Bytes)
client_rules =
    (codes "overcast", codes "Overcast")
    ∷ (codes "pocketcasts", codes "Pocket Casts")
    ∷ (codes "pocket casts", codes "Pocket Casts")
    ∷ (codes "castro", codes "Castro")
    ∷ (codes "downcast", codes "Downcast")
    ∷ (codes "podcastaddict", codes "Podcast Addict")
    ∷ (codes "podcast addict", codes "Podcast Addict")
    ∷ (codes "antennapod", codes "AntennaPod")
    ∷ (codes "anytime", codes "Anytime")
    ∷ (codes "podverse", codes "Podverse")
    ∷ (codes "fountain", codes "Fountain")
    ∷ (codes "player fm", codes "Player FM")
    ∷ (codes "playerfm", codes "Player FM")
    ∷ (codes "castbox", codes "Castbox")
    ∷ (codes "gpodder", codes "gPodder")
    ∷ (codes "podcastindex", codes "Podcast Index")
    ∷ (codes "feedly", codes "Feedly")
    ∷ (codes "inoreader", codes "Inoreader")
    ∷ (codes "newsblur", codes "NewsBlur")
    ∷ (codes "youtube", codes "YouTube Music")
    ∷ (codes "google", codes "Google")
    ∷ (codes "applecoremedia", codes "Apple Podcasts")
    ∷ (codes "itms", codes "Apple Podcasts")
    ∷ (codes "podcasts/", codes "Apple Podcasts")
    ∷ (codes "apple podcasts", codes "Apple Podcasts")
    ∷ (codes "mozilla/", codes "Nettleser")
    ∷ []

unfoldable pub first_rule : List (Bytes × Bytes) → Bytes → Bytes
unfolding contains
first_rule [] ua = codes "Annet"
first_rule ((match, name) ∷ rules) ua =
    let rest = first_rule rules ua in if contains ua match then name else rest

-- `ClientName`
unfoldable pub client_name : Bytes → Bytes
unfolding to_lower first_rule
client_name user_agent = first_rule client_rules (to_lower user_agent)

abbrev pub max_subscribers : ℕ
max_subscribers = 1000000

abbrev pub count_of : Option Bytes → Option ℕ
count_of none = none
count_of (some digits) =
    if ltb max_subscribers (decimal digits) then none else some (decimal digits)

-- `ReportedSubscribers`
unfoldable pub reported_subscribers : (Bytes → Option Bytes) → Bytes → Option ℕ
unfolding decimal
reported_subscribers subscribers_match user_agent = count_of (subscribers_match user_agent)
