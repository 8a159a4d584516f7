-- ===== src/Gather/Tests.antt =====
-- crates/ioutgt-uring/src/sendbatch.rs: a round of a batch at concrete chunks.
use ioutgt.Base.{◌≡◌, refl, true, List, [], ◌∷◌, none, leb, length, drop}
use ioutgt.Pool.{Seg}
use ioutgt.Pool.Bytes.{addrs}
use ioutgt.Gather.{
  GatherBatch, build, reset, push_raw, joined, advance, advance_iovecs, advance_from,
}
use ioutgt.Gather.Resume.{pending, staged, resumed, total, resumed-staged}

abbrev batch : GatherBatch
unfolding build
batch = build 100 4096 none 8

-- Two neighbours and one apart.
abbrev chunks : List Seg
chunks =
    record { ptr = 100; len = 2 } ∷ record { ptr = 102; len = 2 } ∷ record { ptr = 7; len = 3 } ∷ []

merged : length (staged batch chunks).iovs ≡ 2
unfolding staged push_raw joined batch
merged = refl

ended : (advance (resumed (staged batch chunks) (5 ∷ [])) 2).1 ≡ true
unfolding staged push_raw joined resumed advance advance_iovecs advance_from batch
ended = refl

resumed-staged_example :
    (pending (resumed (staged (reset batch) chunks) (3 ∷ 2 ∷ []))
      ≡ drop (total (3 ∷ 2 ∷ [])) (addrs chunks))
    × ((advance (resumed (staged (reset batch) chunks) (3 ∷ 2 ∷ [])) 2).1
        ≡ leb (length (drop (total (3 ∷ 2 ∷ [])) (addrs chunks))) 2)
resumed-staged_example = resumed-staged batch chunks (3 ∷ 2 ∷ []) 2
