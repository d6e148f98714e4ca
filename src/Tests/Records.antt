-- ===== src/Tests/Records.antt =====
-- Records whose marshalling is the concatenation of their texts.
use portolan.Prelude.{
  ℕ, ◌≤◌, ◌<◌, true, some, List, [], ◌∷◌, ◌++◌, Bytes, codes, leb, all_of, length, length-append,
  ◌≡◌, refl, arith,
}
use portolan.Context.{Result, ok, err, text}
use portolan.Telemetry.Record.{Extra, no_extra, Line, encode_jsonl_record}
use portolan.Telemetry.Record.Ending.{encode_jsonl_record-length}

joined : List Bytes → Bytes
joined [] = []
joined (s ∷ ss) = s ++ joined ss

length-joined :
    (ss : List Bytes) → all_of (λ s. leb (length s) 1) ss ≡ true → length (joined ss) ≤ length ss
unfolding joined
length-joined [] h = omega arith
length-joined (s ∷ ss) h = ground (arith, length-append s (joined ss), length-joined ss)

abbrev marshal : List Bytes → Extra ℕ → Result Bytes
marshal ss extra = ok (joined ss)

abbrev texts : List Bytes
texts = codes "s" ∷ codes "find_definition" ∷ codes "graph" ∷ codes "t" ∷ [] ∷ []

marshal_small :
    (ss : List Bytes) (b : Bytes)
    → length ss ≡ 5
    → all_of (λ s. leb (length s) 1) ss ≡ true
    → marshal ss no_extra ≡ ok b
    → length b < 600
marshal_small ss b n h e =
    let z : joined ss ≡ b = ground (arith, e) in rw (← z) (omega (arith, length-joined ss h))

encode_jsonl_record-length_example :
    (l : Line) × (encode_jsonl_record
        (λ s. codes "digest")
        marshal
        600
        texts
        (err (text (codes "cycle")))
      ≡ some l)
    × (length l.line ≤ 600)
encode_jsonl_record-length_example =
    encode_jsonl_record-length (λ s. codes "digest") marshal 600 marshal_small (omega arith) texts
      (err (text (codes "cycle"))) refl
