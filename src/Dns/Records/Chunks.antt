-- ===== src/Dns/Records/Chunks.antt =====
-- chunkTXT of internal/dns/zones.go cuts a text into character-strings of DNS.
use lamund.Prelude.{
  ℕ, zero, suc, ◌+◌, ◌≤◌, ◌≡◌, List, [], ◌∷◌, ◌++◌, append-nil, arith, Bytes, length, drop,
  take-append-drop, length-drop, length-take-le, All,
}
use lamund.Dns.Records.{chunk_from, chunk_txt}

abbrev pub concat : List Bytes → Bytes
concat [] = []
concat (p ∷ ps) = p ++ concat ps

concat-chunk_from : (most fuel : ℕ) (s : Bytes) → concat (chunk_from most fuel s) ≡ s
unfolding chunk_from
concat-chunk_from most zero s = append-nil s
concat-chunk_from most (suc fuel) s =
    ground (arith, concat-chunk_from most fuel (drop most s), take-append-drop most s, append-nil s)

chunk_from-short :
    (most fuel : ℕ) (s : Bytes)
    → 1 ≤ most
    → length s ≤ fuel + most
    → All (λ p. length p ≤ most) (chunk_from most fuel s)
unfolding chunk_from
chunk_from-short most zero s one h = (omega arith, tt)
chunk_from-short most (suc fuel) s one h =
    ground (
      arith,
      chunk_from-short most fuel (drop most s) one,
      length-drop most s,
      length-take-le most s,
    )

length-chunk_from : (most fuel : ℕ) (s : Bytes) → 1 ≤ length (chunk_from most fuel s)
unfolding chunk_from
length-chunk_from most zero s = omega arith
length-chunk_from most (suc fuel) s = ground arith

-- The pieces spell the text, there is at least one, and each has 255 bytes at most.
pub chunk_txt_lem :
    (s : Bytes)
    → (concat (chunk_txt s) ≡ s)
      × (1 ≤ length (chunk_txt s))
      × All (λ p. length p ≤ 255) (chunk_txt s)
unfolding chunk_txt
chunk_txt_lem s = (
  concat-chunk_from 255 (length s) s,
  length-chunk_from 255 (length s) s,
  chunk_from-short 255 (length s) s (omega arith) (omega arith),
)
