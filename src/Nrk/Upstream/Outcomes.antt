-- ===== src/Nrk/Upstream/Outcomes.antt =====
-- What a request to NRK leaves behind in the table of retry deadlines.
use mathlib.Core.Path.{subst}
use kringkasting.Base.{
  ℕ, ◌+◌, ◌≤◌, ◌<◌, min, ◌≡◌, refl, sym, ◌∙◌, ◌⊎◌, inl, inr, Bool, true, false, ◌||◌, Option, [],
  ◌++◌, arith, leb, ◌==◌, lt→ltb, Bytes, codes, same_refl,
}
use kringkasting.Retry
use kringkasting.Retry.{RetryTable, max_delay}
use kringkasting.Retry.Reads.{at-set_deadline}
use kringkasting.Nrk.Upstream.{
  Reply, response, Outcome, failed, is_success, method_key, origin_key, allowed, record_outcome,
  get_reply, with_slot, get_json,
}

module _ (origin_of : Bytes → Bytes) (parse_deadline : Bytes → ℕ → ℕ) where
  -- A deadline that is still to come refuses the request, and leaves the table alone.
  refused :
      (method : Bytes) (rest : RetryTable → Bytes → Reply → ℕ → Outcome) (r after : RetryTable)
      (got : Bool) (url : Bytes) (reply : Reply) (t now : ℕ)
      → (t < Retry.at r (method_key origin_of parse_deadline method url))
        ⊎ (t < Retry.at r (origin_key origin_of parse_deadline url))
      → with_slot origin_of parse_deadline method rest r got after url reply t now ≡ failed 503 r []
  unfolding with_slot Retry.can
  refused method rest r after got url reply t now (inl h) = ground (arith, h)
  refused method rest r after got url reply t now (inr h) = ground (arith, h)

  at-record_outcome :
      (r : RetryTable) (method url : Bytes) (status : ℕ) (header : Bytes) (now : ℕ)
      → (status == 429 || leb 500 status) ≡ true
      → now < parse_deadline header now
      → min (parse_deadline header now) (now + max_delay)
        ≤ Retry.at
            (record_outcome origin_of parse_deadline r method url status header now)
            (origin_key origin_of parse_deadline url)
  unfolding record_outcome
  at-record_outcome r method url status header now f h =
      rw (f, lt→ltb now (parse_deadline header now) h, at-set_deadline, same_refl) (ground arith)

  unsuccessful : (status : ℕ) → (status == 429 || leb 500 status) ≡ true → is_success status ≡ false
  unsuccessful status f = ground (arith, f)

  -- After a failed answer the table is the one of `record_outcome`.
  table-get_reply :
      (r : RetryTable) (url : Bytes) (status : ℕ) (header : Bytes) (decodes : Bool) (len : Option ℕ)
      (now : ℕ)
      → (status == 429 || leb 500 status) ≡ true
      → (get_reply origin_of parse_deadline r url (response status header decodes len) now).table
        ≡ record_outcome origin_of parse_deadline r (codes "GET") url status header now
  unfolding get_reply
  table-get_reply r url status header decodes len now f = rw (unsuccessful status f) refl

  -- When NRK answers 429, or a status from 500 on, with a Retry-After in the future: until then, or
  -- for a day if that is shorter, every request of any method for any URL of the same origin is
  -- refused with status 503, whatever else happens in between to the slots, and without touching the
  -- table or counting as an attempt.
  pub get_json-pauses_origin :
      (r after : RetryTable) (url : Bytes) (status : ℕ) (header : Bytes) (decodes : Bool)
      (len : Option ℕ) (asked_at now : ℕ) (method other : Bytes)
      (rest : RetryTable → Bytes → Reply → ℕ → Outcome) (got : Bool) (later : RetryTable)
      (reply : Reply) (t done_at : ℕ)
      → allowed origin_of parse_deadline r (codes "GET") url asked_at ≡ true
      → allowed origin_of parse_deadline after (codes "GET") url now ≡ true
      → (status == 429 || leb 500 status) ≡ true
      → now < parse_deadline header now
      → origin_of other ≡ origin_of url
      → t < min (parse_deadline header now) (now + max_delay)
      → with_slot origin_of parse_deadline method rest
          (get_json origin_of parse_deadline r true after url
            (response status header decodes len)
            asked_at
            now).table
          got
          later
          other
          reply
          t
          done_at
        ≡ failed 503
            (get_json origin_of parse_deadline r true after url
              (response status header decodes len)
              asked_at
              now).table
            []
  get_json-pauses_origin r after url status header decodes len asked_at now method other rest got
        later reply t done_at a b f h o s =
      let table =
        (get_json origin_of parse_deadline r true after url (response status header decodes len)
          asked_at now).table in
      let recorded : table
          ≡ record_outcome origin_of parse_deadline after (codes "GET") url status header now =
        through a b ∙ table-get_reply after url status header decodes len now f in
      let bound = at-record_outcome after (codes "GET") url status header now f h in
      refused method rest table later got other reply t done_at (
        inr (
          subst (λ r'. t < Retry.at r' (origin_key origin_of parse_deadline other)) (sym recorded)
            (subst
              (λ g.
                t
                < Retry.at
                    (record_outcome origin_of parse_deadline after (codes "GET") url status header
                      now)
                    (codes "origin:" ++ g))
              (sym o) (omega (arith, bound, s)))))
    where
      through :
          allowed origin_of parse_deadline r (codes "GET") url asked_at ≡ true
          → allowed origin_of parse_deadline after (codes "GET") url now ≡ true
          → (get_json origin_of parse_deadline r true after url
              (response status header decodes len)
              asked_at
              now).table
            ≡ (get_reply origin_of parse_deadline after url
                (response status header decodes len)
                now).table
      through a b = unfold with_slot in rw (a, b) refl
