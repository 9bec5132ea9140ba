-- ===== src/Feed/Series/Missing.antt =====
-- refresh.go: the ids that NRK did not know. Making room for one forgets none that still counts.
use kringkasting.Base.{ℕ, Option, none, some, ltb, if◌then◌else◌, Bytes}
use kringkasting.Base.Map.{Map, mem}
use kringkasting.Feed.Series.{Feeds, Begun, known_missing, joins, leads}

-- What a deadline counts for, after `now`.
abbrev unexpired_at : ℕ → Option ℕ → Option ℕ
unexpired_at now none = none
unexpired_at now (some until) = if ltb now until then some until else none

-- The turn of a request whose id is not known to be missing.
abbrev pub turn : Bytes → Feeds → Begun
turn id f = if mem id f.in_flight then joins else leads

-- How a request begins, by the deadline of its id and its turn.
abbrev begun : Option ℕ → ℕ → Begun → Begun
begun none now b = b
begun (some until) now b = if ltb now until then known_missing else b
