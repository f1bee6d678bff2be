-- ===== src/Proto/Event.antt =====
-- crates/proto/src/event.rs: the normalized event, its kinds, venues and sides.
-- A u8, u32 or u64 field is a number; an i64 field is an integer.
use flashbook.Prelude.{
  ℕ, ◌==◌, if◌then◌else◌, Bool, true, false, Option, none, some, List, [], ◌∷◌, Result, ok, err,
  to_option,
}
use Prim.Native.String.{String}
use flashbook.Prelude.Int.{ℤ, pos}

pub data Venue : Type 0 where
  coinbase binance kraken : Venue

pub data Side : Type 0 where
  bid ask : Side

pub data EventKind : Type 0 where
  bid_set ask_set trade snap_begin snap_bid snap_ask snap_end : EventKind
  checksum heartbeat gap clear : EventKind

-- `Venue::ALL`
abbrev pub all_venues : List Venue
all_venues = coinbase ∷ binance ∷ kraken ∷ []

-- `venue as u8`
unfoldable pub venue_to_u8 : Venue → ℕ
venue_to_u8 coinbase = 1
venue_to_u8 binance = 2
venue_to_u8 kraken = 3

-- `Venue::try_from`
unfoldable pub venue_try_from : ℕ → Result Venue ℕ
venue_try_from v =
    if v == 1
    then ok coinbase
    else if v == 2
    then ok binance
    else if v == 3
    then ok kraken
    else err v

-- `kind as u8`
unfoldable pub kind_to_u8 : EventKind → ℕ
kind_to_u8 bid_set = 1
kind_to_u8 ask_set = 2
kind_to_u8 trade = 3
kind_to_u8 snap_begin = 4
kind_to_u8 snap_bid = 5
kind_to_u8 snap_ask = 6
kind_to_u8 snap_end = 7
kind_to_u8 checksum = 8
kind_to_u8 heartbeat = 9
kind_to_u8 gap = 10
kind_to_u8 clear = 11

-- `EventKind::try_from`
unfoldable pub kind_try_from : ℕ → Result EventKind ℕ
kind_try_from v =
    if v == 1
    then ok bid_set
    else if v == 2
    then ok ask_set
    else if v == 3
    then ok trade
    else if v == 4
    then ok snap_begin
    else if v == 5
    then ok snap_bid
    else if v == 6
    then ok snap_ask
    else if v == 7
    then ok snap_end
    else if v == 8
    then ok checksum
    else if v == 9
    then ok heartbeat
    else if v == 10
    then ok gap
    else if v == 11
    then ok clear
    else err v

-- `EVENT_SIZE`
abbrev pub event_size : ℕ
event_size = 64

pub record Event : Type 0 where
  pub recv_mono_ns : ℕ
  pub recv_wall_ns : ℕ
  pub venue_ts_ns : ℕ
  pub venue_seq : ℕ
  pub price : ℤ
  pub qty : ℤ
  pub aux : ℕ
  pub instrument : ℕ
  pub kind : ℕ
  pub venue : ℕ
  pub flags : ℕ
  pub rsvd : ℕ

-- `Event::ZERO`
abbrev pub zero_event : Event
zero_event = record {
  recv_mono_ns = 0;
  recv_wall_ns = 0;
  venue_ts_ns = 0;
  venue_seq = 0;
  price = pos 0;
  qty = pos 0;
  aux = 0;
  instrument = 0;
  kind = 0;
  venue = 0;
  flags = 0;
  rsvd = 0;
}

-- `Event::kind` and `Event::venue`
unfoldable pub event_kind : Event → Result EventKind ℕ
event_kind ev = kind_try_from ev.kind

unfoldable pub event_venue : Event → Result Venue ℕ
event_venue ev = venue_try_from ev.venue

side_of_kind : Option EventKind → Option Side
side_of_kind none = none
side_of_kind (some bid_set) = some bid
side_of_kind (some snap_bid) = some bid
side_of_kind (some ask_set) = some ask
side_of_kind (some snap_ask) = some ask
side_of_kind (some _) = none

-- `Event::side`
unfoldable pub event_side : Event → Option Side
unfolding side_of_kind
event_side ev = side_of_kind (to_option (event_kind ev))

is_book_kind : Option EventKind → Bool
is_book_kind (some bid_set) = true
is_book_kind (some ask_set) = true
is_book_kind (some snap_begin) = true
is_book_kind (some snap_bid) = true
is_book_kind (some snap_ask) = true
is_book_kind (some snap_end) = true
is_book_kind (some clear) = true
is_book_kind _ = false

-- `Event::is_book`
unfoldable pub event_is_book : Event → Bool
unfolding is_book_kind
event_is_book ev = is_book_kind (to_option (event_kind ev))

-- `Venue::name`
unfoldable pub venue_name : Venue → String
venue_name coinbase = "coinbase"
venue_name binance = "binance"
venue_name kraken = "kraken"

-- The bits of `flags`.
abbrev pub taker_sell : ℕ
taker_sell = 1

abbrev pub from_snapshot : ℕ
from_snapshot = 2

abbrev pub synthetic : ℕ
synthetic = 4
