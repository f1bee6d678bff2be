-- ===== src/Store/Block/Decode/Columns.antt =====
-- crates/store/src/block.rs: events and their columns.
use flashbook.Prelude.{
  ℕ, zero, suc, ◌≡◌, refl, sym, ap, ap₂, ◌∙◌, arith, List, [], ◌∷◌, length, map, All,
}
use flashbook.Prelude.Int.{pos}
use flashbook.Proto.Event.{Event}
use flashbook.Store.Block.Decode.{
  VarintColumns, EventColumns, head_or, tail, next_event, tails, assemble,
}

-- Each field of the events, in a column of its own.
abbrev pub columns_of : List Event → EventColumns
columns_of events = record {
  varints = record {
    mono = map (λ e. e.recv_mono_ns) events;
    wall = map (λ e. e.recv_wall_ns) events;
    vts = map (λ e. e.venue_ts_ns) events;
    vseq = map (λ e. e.venue_seq) events;
    price = map (λ e. e.price) events;
    qty = map (λ e. e.qty) events;
    aux = map (λ e. e.aux) events;
    inst = map (λ e. e.instrument) events;
  };
  kinds = map (λ e. e.kind) events;
  venues = map (λ e. e.venue) events;
  flags = map (λ e. e.flags) events;
}

-- Every column has `n` entries.
pub record HasLength (n : ℕ) (c : VarintColumns) : Type 0 where
  pub mono : length c.mono ≡ n
  pub wall : length c.wall ≡ n
  pub vts : length c.vts ≡ n
  pub vseq : length c.vseq ≡ n
  pub price : length c.price ≡ n
  pub qty : length c.qty ≡ n
  pub aux : length c.aux ≡ n
  pub inst : length c.inst ≡ n

map-assemble :
    {A : Type 0} (field : Event → A) (col : EventColumns → List A) (d : A) (n : ℕ)
    (c : EventColumns)
    → ((c : EventColumns) → field (next_event c) ≡ head_or d (col c))
    → ((c : EventColumns) → col (tails c) ≡ tail (col c))
    → length (col c) ≡ n
    → map field (assemble n c) ≡ col c
unfolding assemble
map-assemble field col d zero c first rest e = sym (no_entries (col c) e)
  where
    no_entries : {A : Type 0} (l : List A) → length l ≡ 0 → l ≡ []
    no_entries [] e = refl
    no_entries (x ∷ l) e = absurd (omega arith)
map-assemble field col d (suc n) c first rest e =
    let (split, fewer) = next_entry (col c) n d e in
    ap₂ (λ x l. x ∷ l) (first c)
      (map-assemble field col d n (tails c) first rest (ap length (rest c) ∙ fewer) ∙ rest c)
    ∙ sym split
  where
    next_entry :
        {A : Type 0} (l : List A) (n : ℕ) (d : A)
        → length l ≡ suc n
        → (l ≡ head_or d l ∷ tail l) × (length (tail l) ≡ n)
    next_entry [] n d e = absurd (omega arith)
    next_entry (x ∷ l) n d e = (refl, omega arith)

-- Columns of `n` entries are the columns of the `n` events that are put together from them.
pub columns_of-assemble :
    (n : ℕ) (c : EventColumns)
    → HasLength n c.varints
    → length c.kinds ≡ n
    → length c.venues ≡ n
    → length c.flags ≡ n
    → columns_of (assemble n c) ≡ c
columns_of-assemble n c h kinds venues flags =
    rw
      (
        map-assemble (λ e. e.recv_mono_ns) (λ c. c.varints.mono) 0 n c (λ c. refl) (λ c. refl)
            h.mono,
        map-assemble (λ e. e.recv_wall_ns) (λ c. c.varints.wall) 0 n c (λ c. refl) (λ c. refl)
            h.wall,
        map-assemble (λ e. e.venue_ts_ns) (λ c. c.varints.vts) 0 n c (λ c. refl) (λ c. refl) h.vts,
        map-assemble (λ e. e.venue_seq) (λ c. c.varints.vseq) 0 n c (λ c. refl) (λ c. refl) h.vseq,
        map-assemble (λ e. e.price) (λ c. c.varints.price) (pos 0) n c (λ c. refl) (λ c. refl)
            h.price,
        map-assemble (λ e. e.qty) (λ c. c.varints.qty) (pos 0) n c (λ c. refl) (λ c. refl) h.qty,
        map-assemble (λ e. e.aux) (λ c. c.varints.aux) 0 n c (λ c. refl) (λ c. refl) h.aux,
        map-assemble (λ e. e.instrument) (λ c. c.varints.inst) 0 n c (λ c. refl) (λ c. refl) h.inst,
        map-assemble (λ e. e.kind) (λ c. c.kinds) 0 n c (λ c. refl) (λ c. refl) kinds,
        map-assemble (λ e. e.venue) (λ c. c.venues) 0 n c (λ c. refl) (λ c. refl) venues,
        map-assemble (λ e. e.flags) (λ c. c.flags) 0 n c (λ c. refl) (λ c. refl) flags,
      )
      refl

with_no_rsvd : (e : Event) → e.rsvd ≡ 0 → record e { rsvd = 0 } ≡ e
with_no_rsvd e h = ap (λ r. record e { rsvd = r }) (sym h)

-- Events whose reserved byte is 0 are put together again from their columns.
pub assemble-columns_of :
    (events : List Event)
    → All (λ e. e.rsvd ≡ 0) events
    → assemble (length events) (columns_of events) ≡ events
unfolding assemble
assemble-columns_of [] a = refl
assemble-columns_of (e ∷ events) a =
    ap₂ (λ x l. x ∷ l) (with_no_rsvd e a.0) (assemble-columns_of events a.1)
