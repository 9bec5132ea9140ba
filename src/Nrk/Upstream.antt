-- ===== src/Nrk/Upstream.antt =====
-- internal/nrk/http.go: the HTTP layer of every NRK request. `acquire` and `release` are one section
-- under the mutex each; requests are named by numbers. In `getJSON` and `head` what lies outside is
-- an argument: whether a slot was had, the retry table as it is when the slot comes, and what the
-- transport answers. `origin_of` stands for url.Parse and `parse_deadline` for `ParseRetryAfter` with
-- its date parsers. A request reports the statuses that it counts in the statistics.
pub mod Slots
pub mod Turns
pub mod Outcomes
use kringkasting.Base.{
  ℕ, zero, suc, ◌+◌, ◌-◌, ◌*◌, ◌/◌, ◌%◌, ◌^◌, ◌≤◌, ◌<◌, min, max, String, ◌≡◌, refl, sym, ap, ◌∙◌,
  ◌≢◌, ◌↔◌, ◌⊎◌, inl, inr, Bool, true, false, not, ◌&&◌, ◌||◌, Option, none, some, List, [], ◌∷◌,
  ◌++◌, map, append_assoc, append-nil, arith, ltb, leb, ◌==◌, if◌then◌else◌, ltb→lt, lt→ltb, leb→le,
  le→leb, ==_iff, Bool-cases, Option-cases, length, get_elem?, set, take, drop, length-append,
  length-take-le, length-drop, All, All-append, All-left, All-right, Bytes, codes, same, same_iff,
  same_refl, append_cancel_left, differ, All-middle, All-map,
}
use kringkasting.Base.Map.{
  Map, lookup, insert, delete, is_some, lookup-insert, lookup-insert_self, lookup-delete,
  length-insert-le, length-insert_present, length-delete-le, mem, keys, keys_where, mem-keys,
  mem-append, lookup-delete_self, lookup-delete_ne, lookup-insert_ne, Distinct, insert-Distinct,
  passes, mem-keys_where, remove, mem-remove,
}
use kringkasting.Retry
use kringkasting.Retry.{RetryTable}

abbrev pub max_concurrent_upstream : ℕ
max_concurrent_upstream = 12

abbrev pub max_queued_upstream : ℕ
max_queued_upstream = 64

-- `waiters` are the requests whose channels wait in the queue, the oldest first.
pub record Upstream : Type 0 where
  pub in_flight : ℕ
  pub waiters : List ℕ

abbrev pub idle : Upstream
idle = record { in_flight = 0; waiters = [] }

pub data Acquired : Type 0 where
  granted saturated waiting : Acquired

-- `acquire`, up to where the request waits
unfoldable pub acquire : ℕ → Upstream → Acquired × Upstream
acquire id u =
    if ltb u.in_flight max_concurrent_upstream
    then (granted, record u { in_flight = u.in_flight + 1 })
    else if leb max_queued_upstream (length u.waiters)
    then (saturated, u)
    else (waiting, record u { waiters = u.waiters ++ (id ∷ []) })

-- `release`: the request that gets the slot, if one waits
abbrev pub hand_over : List ℕ → Upstream → Option ℕ × Upstream
hand_over [] u = (none, record u { in_flight = u.in_flight - 1 })
hand_over (next ∷ waiters) u = (some next, record u { waiters = waiters })

unfoldable pub release : Upstream → Option ℕ × Upstream
release u = hand_over u.waiters u

-- What the transport answers.
pub data Reply : Type 0 where
  bad_request shutting_down network_error : Reply
  -- the status, the Retry-After header, and whether the body decodes, or its length in `head`
  response : ℕ → Bytes → Bool → Option ℕ → Reply

-- What a request leaves: its status, the table, and what it counted.
pub record Outcome : Type 0 where
  pub status : ℕ
  pub is_ok : Bool
  pub content_length : Option ℕ
  pub table : RetryTable
  pub counted : List ℕ

abbrev pub is_success : ℕ → Bool
is_success status = leb 200 status && leb status 299

abbrev pub failed : ℕ → RetryTable → List ℕ → Outcome
failed status r counted = record {
  status = status;
  is_ok = false;
  content_length = none;
  table = r;
  counted = counted;
}

module _ (origin_of : Bytes → Bytes) (parse_deadline : Bytes → ℕ → ℕ) where
  abbrev pub method_key : Bytes → Bytes → Bytes
  method_key method url = method ++ (codes ":" ++ url)

  abbrev pub origin_key : Bytes → Bytes
  origin_key url = codes "origin:" ++ origin_of url

  unfoldable pub allowed : RetryTable → Bytes → Bytes → ℕ → Bool
  allowed r method url now =
      Retry.can r (method_key method url) now && Retry.can r (origin_key url) now

  -- `recordOutcome`; the clock is read once
  unfoldable pub record_outcome : RetryTable → Bytes → Bytes → ℕ → Bytes → ℕ → RetryTable
  record_outcome r method url status header now =
      let deadline = parse_deadline header now in
      let deferred = Retry.defer r (method_key method url) deadline now in
      if status == 429 || leb 500 status
      then (if ltb now deadline
          then Retry.set_deadline deferred (origin_key url) deadline now
          else deferred)
      else Retry.clear r (method_key method url)

  -- The rest of `getJSON` when the slot is held.
  unfoldable pub get_reply : RetryTable → Bytes → Reply → ℕ → Outcome
  unfolding record_outcome
  get_reply r url bad_request now = failed 0 r []
  get_reply r url shutting_down now = failed 0 r []
  get_reply r url network_error now =
      failed 0 (Retry.defer r (method_key (codes "GET") url) 0 now) (0 ∷ [])
  get_reply r url (response status header decodes len) now =
      let r' = record_outcome r (codes "GET") url status header now in
      if not (is_success status)
      then failed status r' (status ∷ [])
      else if decodes
      then record {
        status = status;
        is_ok = true;
        content_length = none;
        table = r';
        counted = status ∷ [];
      }
      else failed 0 (Retry.defer r' (method_key (codes "GET") url) 0 now) (0 ∷ [])

  -- The rest of `head`; the body's length is given when the header is a number.
  unfoldable pub head_reply : RetryTable → Bytes → Reply → ℕ → Outcome
  unfolding record_outcome
  head_reply r url bad_request now = failed 0 r []
  head_reply r url shutting_down now = failed 0 r []
  head_reply r url network_error now =
      failed 0 (Retry.defer r (method_key (codes "HEAD") url) 0 now) (0 ∷ [])
  head_reply r url (response status header decodes len) now = record {
    status = status;
    is_ok = is_success status;
    content_length = if is_success status then len else none;
    table = record_outcome r (codes "HEAD") url status header now;
    counted = status ∷ [];
  }

  -- The two looks at the deadlines, before and after the wait for a slot. Of `head` and `getJSON`.
  unfoldable pub with_slot :
      Bytes
      → (RetryTable → Bytes → Reply → ℕ → Outcome)
      → RetryTable
      → Bool
      → RetryTable
      → Bytes
      → Reply
      → ℕ
      → ℕ
      → Outcome
  unfolding allowed
  with_slot method rest before got_slot after url reply asked_at now =
      if not (allowed before method url asked_at)
      then failed 503 before []
      else if not got_slot
      then failed 0 after []
      else if not (allowed after method url now)
      then failed 503 after []
      else rest after url reply now

  abbrev pub get_json : RetryTable → Bool → RetryTable → Bytes → Reply → ℕ → ℕ → Outcome
  get_json = with_slot (codes "GET") get_reply

  abbrev pub head : RetryTable → Bool → RetryTable → Bytes → Reply → ℕ → ℕ → Outcome
  head = with_slot (codes "HEAD") head_reply
