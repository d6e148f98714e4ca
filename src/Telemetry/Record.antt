-- ===== src/Telemetry/Record.antt =====
-- internal/telemetry/jsonl_record.go: the line of an event, kept within a number of bytes. json.Marshal and the
-- hexadecimal SHA-256 are functions that the code is given. Of the event, marshalling takes the five texts that may be
-- shortened, in the order SessionID, Tool, GraphMode, Timestamp and Err, and the extra values; the rest of the event
-- does not change here.
pub mod Bounds
pub mod Ending
use portolan.Prelude.{
  ℕ, zero, suc, ◌+◌, ◌-◌, ◌/◌, min, max, Bool, true, false, not, ◌&&◌, ◌||◌, Option, none, some,
  List, [], ◌∷◌, ◌++◌, Bytes, codes, map, ltb, leb, ◌==◌, if◌then◌else◌, take, length,
}
use portolan.Context.{Result, ok, err, message}
use portolan.Text.Utf8.{decode_rune, rune_error}

-- `utf8.ValidString`; the number is how many bytes of a rune are still to be passed.
unfoldable pub valid_from : ℕ → Bytes → Bool
valid_from skip [] = true
valid_from (suc skip) (c ∷ cs) = valid_from skip cs
valid_from zero (c ∷ cs) =
    let r = decode_rune (c ∷ cs) in not (r.0 == rune_error && r.1 == 1) && valid_from (r.1 - 1) cs

-- `for !utf8.ValidString(prefix) { prefix = prefix[:len(prefix)-1] }` from the first `n` bytes on.
unfoldable pub valid_prefix : ℕ → Bytes → Bytes
valid_prefix zero value = []
valid_prefix (suc n) value =
    let shorter = valid_prefix n value in
    let prefix = take (suc n) value in if valid_from zero prefix then prefix else shorter

-- `…sha256:`.
abbrev pub digest_mark : Bytes
digest_mark = 0xE2 ∷ 0x80 ∷ 0xA6 ∷ codes "sha256:"

-- The values that an event has beside its fields.
pub data Extra (V : Type 0) : Type 0 where
  no_extra : Extra V
  values : V → Extra V
  encode_error : Bytes → Extra V
  oversize_of : ℕ → Extra V

unfoldable pub total_length : List Bytes → ℕ
total_length [] = 0
total_length (s ∷ ss) = length s + total_length ss

-- A text that may be shortened: what it was, the limit it has now, and what it is.
pub record Field : Type 0 where
  pub original : Bytes
  pub limit : ℕ
  pub shown : Bytes

pub record Line : Type 0 where
  pub line : Bytes
  pub oversize : Bool
  pub fallback : Bool

module _ (digest : Bytes → Bytes) where
  unfoldable pub bounded_string : Bytes → ℕ → Bytes
  unfolding valid_prefix
  bounded_string value limit =
      let suffix = digest_mark ++ digest value in
      if leb (length value) limit
      then value
      else if leb limit (length suffix)
      then take (min (length (digest value)) (max 1 limit)) (digest value)
      else valid_prefix (limit - length suffix) value ++ suffix

  -- One text in a round of the loops: a limit above `least` is halved.
  unfoldable pub halve : ℕ → Field → Field
  unfolding bounded_string
  halve least f =
      if ltb least f.limit
      then record f {
        limit = max least (f.limit / 2);
        shown = bounded_string f.original (max least (f.limit / 2));
      }
      else f

  unfoldable pub is_above : ℕ → List Field → Bool
  is_above least [] = false
  is_above least (f ∷ fs) = ltb least f.limit || is_above least fs

  abbrev pub untouched : Bytes → Field
  untouched s = record { original = s; limit = length s; shown = s }

  -- Err, which is shortened first.
  unfoldable pub shortened_last : ℕ → List Field → List Field
  unfolding bounded_string
  shortened_last limit [] = []
  shortened_last limit (f ∷ []) =
      record f { limit = limit; shown = bounded_string f.original limit } ∷ []
  shortened_last limit (f ∷ g ∷ fs) = f ∷ shortened_last limit (g ∷ fs)

module _ (digest : Bytes → Bytes) {V : Type 0} (marshal : List Bytes → Extra V → Result Bytes)
    (max_bytes : ℕ) where
  -- `encoded, _ = json.Marshal(ev)`, and the line break.
  unfoldable pub marshal_line : List Field → Extra V → Bytes
  marshal_line fields extra =
      elim (marshal (map (λ (f : Field). f.shown) fields) extra) [ ok b ↦ b | err e ↦ [] ]
      ++ (b'\n' ∷ [])

  abbrev pub fits : Bytes → Bool
  fits line = leb (length line) max_bytes

  -- The loop that keeps 96 bytes of each text. `none` means that the fuel ran out.
  unfoldable pub halve_to_96 : ℕ → List Field → Extra V → Option (List Field)
  unfolding marshal_line halve is_above
  halve_to_96 zero fields extra = none
  halve_to_96 (suc fuel) fields extra =
      let rest = halve_to_96 fuel (map (halve digest 96) fields) extra in
      if fits (marshal_line fields extra)
      then some fields
      else if is_above digest 96 fields
      then rest
      else some fields

  -- The loop that keeps one byte of each.
  unfoldable pub halve_to_1 : ℕ → List Field → Option Bytes
  unfolding marshal_line halve
  halve_to_1 zero fields = none
  halve_to_1 (suc fuel) fields =
      let rest = halve_to_1 fuel (map (halve digest 1) fields) in
      let line = marshal_line fields no_extra in if fits line then some line else rest

  -- Behind the loop that keeps 96 bytes.
  unfoldable pub encode_short : ℕ → Extra V → Option (List Field) → Option Bytes
  unfolding halve_to_1
  encode_short fuel extra none = none
  encode_short fuel extra (some fields) =
      let line = marshal_line fields extra in
      if fits line then some line else halve_to_1 fuel fields

  -- What follows where the line with the event's own extra values is too long.
  unfoldable pub encode_oversize : ℕ → List Bytes → ℕ → Option Bytes
  unfolding encode_short halve_to_96 shortened_last
  encode_oversize fuel texts size =
      let extra : Extra V = oversize_of size in
      let fields = map (untouched digest) texts in
      let short = shortened_last digest (max_bytes / 4) fields in
      if fits (marshal_line fields extra)
      then some (marshal_line fields extra)
      else if fits (marshal_line short extra)
      then some (marshal_line short extra)
      else encode_short fuel extra (halve_to_96 fuel short extra)

  unfoldable pub as_line : Bool → Option Bytes → Option Line
  as_line fallback none = none
  as_line fallback (some l) = some (record { line = l; oversize = true; fallback = fallback })

  -- With the fuel of both loops, which is above the sum of the limits.
  unfoldable pub encode_line : List Bytes → Bool → Bytes → Option Line
  unfolding encode_oversize total_length as_line
  encode_line texts fallback encoded =
      let first = encoded ++ (b'\n' ∷ []) in
      if fits first
      then some (record { line = first; oversize = false; fallback = fallback })
      else as_line fallback
          (encode_oversize (total_length texts + max_bytes + 1) texts (length first))

  -- The event with an encoding error in place of its extra values.
  unfoldable pub error_text : List Bytes → Bytes → Bytes
  unfolding bounded_string
  error_text texts e = elim (marshal texts (encode_error (bounded_string digest e 256))) [
    | ok b ↦ b
    | err f ↦ []
  ]

  -- `encodeJSONLRecord`, of the texts of the event and the first failure or the values of its snapshot.
  unfoldable pub encode_jsonl_record : List Bytes → Result V → Option Line
  unfolding encode_line error_text
  encode_jsonl_record texts extra = elim extra [
    | err failure ↦ encode_line texts true (error_text texts (message failure))
    | ok v ↦ elim (marshal texts (values v)) [
      | ok b ↦ encode_line texts false b
      | err e ↦ encode_line texts true (error_text texts (message e))
    ]
  ]
