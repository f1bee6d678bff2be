-- ===== src/Proto/Instrument.antt =====
-- crates/proto/src/instrument.rs: the registry of instruments.
pub mod Lookup
use flashbook.Prelude.{
  ℕ, ◌+◌, ◌*◌, Bool, Option, none, some, List, [], ◌∷◌, ◌++◌, length, get_elem?, ◌==◌, ◌&&◌,
  if◌then◌else◌, Result, ok, err, is_none, ◌>>=◌,
}
use flashbook.Proto.Event.{all_venues, coinbase, binance, kraken, Venue, venue_to_u8}
use Prim.Native.String.{String, ◌++◌ as join}
use text.Mathlib.Text.{◌==◌ as str_eq}
use mathlib.Core.List.{flat_map}

pub record InstrumentMeta : Type 0 where
  pub id : ℕ
  pub venue : Venue
  pub venue_symbol : String
  pub canonical : String

-- The two hash maps as association lists, the latest entry first.
pub record Registry : Type 0 where
  pub metas : List InstrumentMeta
  pub by_id : List (ℕ × ℕ)
  pub by_venue_symbol : List ((Venue × String) × ℕ)

-- `Registry::default()`
abbrev pub default_registry : Registry
default_registry = record { metas = []; by_id = []; by_venue_symbol = [] }

pub data RegistryError : Type 0 where
  duplicate_id : ℕ → RegistryError
  duplicate_symbol : String → RegistryError
  reserved_id : RegistryError

unfoldable pub find_id : ℕ → List (ℕ × ℕ) → Option ℕ
find_id id [] = none
find_id id ((j, i) ∷ m) = if id == j then some i else find_id id m

abbrev pub same_key : Venue × String → Venue × String → Bool
same_key (v, s) (w, t) = venue_to_u8 v == venue_to_u8 w && str_eq s t

unfoldable pub find_symbol : Venue × String → List ((Venue × String) × ℕ) → Option ℕ
unfolding venue_to_u8
find_symbol key [] = none
find_symbol key ((j, id) ∷ m) = if same_key key j then some id else find_symbol key m

-- `Registry::insert`
unfoldable pub insert : InstrumentMeta → Registry → Result Registry RegistryError
unfolding find_id find_symbol
insert m r =
    if m.id == 0
    then err reserved_id
    else if is_none (find_id m.id r.by_id)
    then (if is_none (find_symbol (m.venue, m.venue_symbol) r.by_venue_symbol)
        then ok (record {
          metas = r.metas ++ (m ∷ []);
          by_id = (m.id, length r.metas) ∷ r.by_id;
          by_venue_symbol = ((m.venue, m.venue_symbol), m.id) ∷ r.by_venue_symbol;
        })
        else err (duplicate_symbol m.venue_symbol))
    else err (duplicate_id m.id)

-- The loop of `Registry::new`, from a registry on.
insert_all : List InstrumentMeta → Registry → Result Registry RegistryError
insert_all [] r = ok r
insert_all (m ∷ ms) r = elim (insert m r) [ ok r' ↦ insert_all ms r' | err e ↦ err e ]

unfoldable pub new : List InstrumentMeta → Result Registry RegistryError
unfolding insert insert_all
new metas = insert_all metas default_registry

-- `Registry::get`: the index is into `metas`.
unfoldable pub get : ℕ → Registry → Option InstrumentMeta
unfolding find_id
get id r = find_id id r.by_id >>= λ i. get_elem? r.metas i

-- `Registry::id_of`
unfoldable pub id_of : Venue → String → Registry → Option ℕ
unfolding find_symbol
id_of venue venue_symbol r = find_symbol (venue, venue_symbol) r.by_venue_symbol

-- `Registry::for_venue`
unfoldable pub for_venue : Venue → Registry → List InstrumentMeta
unfolding venue_to_u8
for_venue venue r =
    flat_map (λ m. if venue_to_u8 m.venue == venue_to_u8 venue then m ∷ [] else []) r.metas

-- `Registry::all`
abbrev pub all : Registry → List InstrumentMeta
all r = r.metas

-- The pair of a base currency on a venue, as the venue writes it.
abbrev symbol_of : Venue → String → String
symbol_of coinbase base = join base "-USD"
symbol_of binance base = join base "USDT"
symbol_of kraken base = join base "/USD"

-- The loops of `Registry::builtin`, which number the instruments as they go.
builtin_row : ℕ → Venue → List String → List InstrumentMeta
builtin_row id venue [] = []
builtin_row id venue (base ∷ syms) =
    record {
      id = id;
      venue = venue;
      venue_symbol = symbol_of venue base;
      canonical = join base "-USD";
    }
    ∷ builtin_row (id + 1) venue syms

builtin_rows : ℕ → List Venue → List String → List InstrumentMeta
unfolding builtin_row
builtin_rows vi [] syms = []
builtin_rows vi (venue ∷ venues) syms =
    builtin_row (vi * 5 + 1) venue syms ++ builtin_rows (vi + 1) venues syms

-- `Registry::builtin`; the source panics on an error.
unfoldable pub builtin : Result Registry RegistryError
unfolding new builtin_rows
builtin = new (builtin_rows 0 all_venues ("BTC" ∷ "ETH" ∷ "SOL" ∷ "XRP" ∷ "DOGE" ∷ []))
