-- ===== src/Bus/Ring.antt =====
-- crates/bus/src/ring.rs: the seqlock broadcast ring, one producer and a consumer, whose atomic
-- loads and stores interleave in any order. A step of a thread is one atomic access to what the
-- other thread writes; the accesses are taken to be sequentially consistent.
pub mod Size
pub mod Slots
pub mod Invariant
pub mod Rounds
pub mod Delivery
pub mod Received
use flashbook.Prelude.{
  ℕ, zero, suc, ◌+◌, ◌-◌, ◌*◌, ◌/◌, ◌^◌, Bool, true, false, List, [], ◌∷◌, ◌++◌, ltb, leb, ◌==◌,
  if◌then◌else◌,
}
use Prim.Native.Nat.{bit_and, max}

-- `WORDS`: the 64-bit words of an event.
abbrev pub word_count : ℕ
word_count = 8

-- An event as its words: word `i` for `i` below 8.
abbrev pub Words : Type 0
Words = ℕ → ℕ

pub record Slot : Type 0 where
  pub version : ℕ
  pub data_words : Words

-- `Slot::new`
abbrev pub new_slot : Slot
new_slot = record { version = 0; data_words = λ i. 0 }

-- The ring has 2 ^ shift slots and the mask 2 ^ shift - 1.
pub record Ring : Type 0 where
  pub slots : ℕ → Slot
  pub shift : ℕ
  pub head : ℕ

abbrev pub mask : Ring → ℕ
mask r = 2 ^ r.shift - 1

-- `s & self.mask`
unfoldable pub index : Ring → ℕ → ℕ
index r s = bit_and s (mask r)

-- `Ring::expected_version`
unfoldable pub expected_version : Ring → ℕ → ℕ
expected_version r s = (s / 2 ^ r.shift + 1) * 2

abbrev pub update {ℓ} : {A : Type ℓ} → (ℕ → A) → ℕ → A → ℕ → A
update f i a j = if j == i then a else f j

-- Where `Producer::publish` stands: event `s` goes to its slot, whose version was `v`.
pub data Publishing : Type 0 where
  idle : Publishing
  -- `i` words are stored.
  writing : ℕ → ℕ → ℕ → Publishing
  -- The slot is done, and `head` is still to be stored.
  closing : ℕ → Publishing

-- What `Consumer::try_next` returns.
pub data Recv : Type 0 where
  event : Words → Recv
  empty : Recv
  lagged : ℕ → Recv

-- Where `Consumer::try_next` stands.
pub data Polling : Type 0 where
  ready : Polling
  -- The version was the expected one, and `i` words are copied.
  copying : ℕ → Words → Polling
  -- The version was another one: `head` is still to be loaded.
  lapped : Polling

pub record System : Type 0 where
  pub ring : Ring
  pub publishing : Publishing
  pub polling : Polling
  -- The consumer's cursor, and what its polls returned, the latest last.
  pub next : ℕ
  pub received : List Recv

module _ (stream : ℕ → Words) where
  -- The producer publishes `stream s` as event number `s`.
  unfoldable pub publish_step : Publishing → Ring → Publishing × Ring
  publish_step idle r =
      let s = r.head in
      let slot = r.slots (index r s) in
      let v = slot.version in
      (
        writing s v 0,
        record r { slots = update r.slots (index r s) (record slot { version = v + 1 }) },
      )
  publish_step (writing s v i) r =
      let slot = r.slots (index r s) in
      if ltb i word_count
      then (
        writing s v (i + 1),
        record r {
          slots =
              update r.slots (index r s)
                (record slot { data_words = update slot.data_words i (stream s i) });
        },
      )
      else (
        closing s,
        record r { slots = update r.slots (index r s) (record slot { version = v + 2 }) },
      )
  publish_step (closing s) r = (idle, record r { head = s + 1 })

  unfoldable pub produce : System → System
  unfolding publish_step
  produce s = let (p, r) = publish_step s.publishing s.ring in record s { publishing = p; ring = r }

-- A poll ends with an answer and the cursor after it.
unfoldable pub answer : Recv → ℕ → System → System
answer r next s = record s { polling = ready; next = next; received = s.received ++ (r ∷ []) }

-- The saturating subtractions of `try_next`: what is lost for sure, and at least one event.
unfoldable pub lost : ℕ → ℕ → ℕ → ℕ
lost head cap next = max (head - cap - next) 1

unfoldable pub poll_step : Polling → System → System
unfolding answer lost
poll_step ready s =
    let want = expected_version s.ring s.next in
    let v = (s.ring.slots (index s.ring s.next)).version in
    if ltb v want
    then answer empty s.next s
    else if v == want
    then record s { polling = copying 0 (λ i. 0) }
    else record s { polling = lapped }
poll_step (copying i words) s =
    let slot = s.ring.slots (index s.ring s.next) in
    if ltb i word_count
    then record s { polling = copying (i + 1) (update words i (slot.data_words i)) }
    else if slot.version == expected_version s.ring s.next
    then answer (event words) (s.next + 1) s
    else record s { polling = lapped }
poll_step lapped s =
    let n = lost s.ring.head (mask s.ring + 1) s.next in answer (lagged n) (s.next + n) s

unfoldable pub poll : System → System
unfolding poll_step
poll s = poll_step s.polling s

-- Which thread makes the next access.
pub data Thread : Type 0 where
  producer consumer : Thread

unfoldable pub run : (ℕ → Words) → List Thread → System → System
unfolding produce poll
run stream [] s = s
run stream (producer ∷ schedule) s = run stream schedule (produce stream s)
run stream (consumer ∷ schedule) s = run stream schedule (poll s)

-- `ring(capacity)` with its shift, before anything is published.
abbrev pub new_ring : ℕ → Ring
new_ring shift = record { slots = λ i. new_slot; shift = shift; head = 0 }

-- `subscribe_ring`: a consumer at the current head of a ring that nobody is writing to.
abbrev pub subscribe : Ring → System
subscribe r = record { ring = r; publishing = idle; polling = ready; next = r.head; received = [] }

-- `Consumer::lag`
abbrev pub lag : System → ℕ
lag s = s.ring.head - s.next
