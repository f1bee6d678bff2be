-- ===== src/Replay/Tests.antt =====
-- A merge of two venues, and the theorems on it.
use flashbook.Prelude.{
  ℕ, zero, suc, ◌≡◌, refl, ap, false, Option, none, some, List, [], ◌∷◌, get_elem?, ok, err, true,
  Bool,
}
use flashbook.Prelude.Results.{ok_is}
use flashbook.Proto.Hasher.Counting.{counting}
use flashbook.Replay.Source.{
  MergedRecord, Stream, SegmentReader, at_stream_end, VenueCursor, MergedStream, key_lt, best_from,
  set_head, pull, next_of, next, next_record, next_segment,
}
use flashbook.Proto.RawLog.{torn_tail}
use flashbook.Replay.Source.Order.{NotBefore, IsNext, next-IsNext, next_in_order}
use mathlib.Core.Path.{subst}

abbrev nothing_zipped : List ℕ → Option Stream
nothing_zipped b = some (record { bytes = b; broken = false })

abbrev record_at : ℕ → ℕ → MergedRecord
record_at venue mono = record {
  venue = venue;
  rkind = 1;
  recv_mono_ns = mono;
  recv_wall_ns = 0;
  payload = [];
}

-- A cursor at the end of its segments.
abbrev at_end : ℕ → VenueCursor
at_end venue = record { venue = venue; segments = []; reader = none; yielded = 1; torn_tails = 0 }

abbrev streams : Option MergedRecord → Option MergedRecord → MergedStream
streams h g = record { cursors = at_end 1 ∷ at_end 2 ∷ []; heads = h ∷ g ∷ [] }

-- A reader at the end of its bytes, 32 into the segment.
abbrev finished : Bool → SegmentReader
finished broken = record {
  log = record {
    r = [];
    header = record { version = 1; venue = 1; start_wall_ns = 0; start_mono_ns = 0; meta = [] };
    offset = 32;
  };
  broken = broken;
}

-- The end of a stream that broke off is salvaged as a torn tail.
broken_end :
    at_stream_end (finished true) (ok (none, (finished true).log))
    ≡ err (torn_tail 32 "partial length prefix")
unfolding at_stream_end
broken_end = refl

clean_end :
    at_stream_end (finished false) (ok (none, (finished false).log)) ≡ ok (none, finished false)
unfolding at_stream_end
clean_end = refl

-- Two records at the same time: the one of the lower venue comes first.
first_next :
    next counting nothing_zipped (streams (some (record_at 1 7)) (some (record_at 2 7)))
    ≡ ok (some (record_at 1 7), streams none (some (record_at 2 7)))
unfolding next next_of best_from pull next_record next_segment set_head
first_next = refl

second_next :
    next counting nothing_zipped (streams none (some (record_at 2 7)))
    ≡ ok (some (record_at 2 7), streams none none)
unfolding next next_of best_from pull next_record next_segment set_head
second_next = refl

next-IsNext_example :
    IsNext counting nothing_zipped
      (streams (some (record_at 1 7)) (some (record_at 2 7)))
      (some (record_at 1 7))
      (streams none (some (record_at 2 7)))
next-IsNext_example =
    next-IsNext counting nothing_zipped (streams (some (record_at 1 7)) (some (record_at 2 7)))
      (streams none (some (record_at 2 7))) (some (record_at 1 7)) first_next

nothing_behind :
    (i : ℕ) (h : Option MergedRecord)
    → get_elem? (some (record_at 1 7) ∷ some (record_at 2 7) ∷ []) i ≡ some (some (record_at 1 7))
    → pull counting nothing_zipped i (at_end 1 ∷ at_end 2 ∷ []) ≡ ok (h, at_end 1 ∷ at_end 2 ∷ [])
    → NotBefore (record_at 1 7) h
unfolding pull next_record next_segment
nothing_behind zero h at p = subst (NotBefore (record_at 1 7)) (ap (λ x. x.0) (ok_is p)) tt
nothing_behind (suc zero) h at p = subst (NotBefore (record_at 1 7)) (ap (λ x. x.0) (ok_is p)) tt
nothing_behind (suc (suc i)) h at p = subst (NotBefore (record_at 1 7)) (ap (λ x. x.0) (ok_is p)) tt

next_in_order_example : key_lt (record_at 2 7) (record_at 1 7) ≡ false
next_in_order_example =
    next_in_order counting nothing_zipped (streams (some (record_at 1 7)) (some (record_at 2 7)))
      (streams none (some (record_at 2 7))) (streams none none) (record_at 1 7) (record_at 2 7)
      nothing_behind first_next second_next
