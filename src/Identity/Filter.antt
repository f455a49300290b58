-- ===== src/Identity/Filter.antt =====
-- The filter of internal/identity/executor.go that keeps a credential out of what gh prints, and the
-- buffer with a limit beside it.
-- A byte is a number. The writer below is a parameter: a state, and what a write makes of it.
pub mod Matching
pub mod Redaction
use dovik.Prelude.{
  ℕ, zero, suc, ◌+◌, ◌-◌, Bool, true, false, ◌&&◌, Option, none, some, List, [], ◌∷◌, ◌++◌, map,
  length, take, drop, ltb, leb, nat_beq, if◌then◌else◌,
}

abbrev pub Bytes : Type 0
Bytes = List ℕ

pub data WriteError : Type 0 where
  not_written exceeds_limit : WriteError

pub record LimitedBuffer : Type 0 where
  pub content : Bytes
  pub limit : ℕ

-- `limitedBuffer.Write` returns the number of bytes, or 0 beside an error.
unfoldable pub limited_write : LimitedBuffer → Bytes → LimitedBuffer × ℕ × Option WriteError
limited_write b p =
    if ltb b.limit (length b.content + length p)
    then (b, 0, some exceeds_limit)
    else (record b { content = b.content ++ p }, length p, none)

-- bytes.HasPrefix
unfoldable pub has_prefix : Bytes → Bytes → Bool
has_prefix [] text = true
has_prefix (s ∷ ss) [] = false
has_prefix (s ∷ ss) (x ∷ xs) = nat_beq s x && has_prefix ss xs

abbrev map_suc : Option ℕ → Option ℕ
map_suc none = none
map_suc (some n) = some (suc n)

-- bytes.Index: where the secret first stands.
unfoldable pub index_of : Bytes → Bytes → Option ℕ
unfolding has_prefix
index_of secret [] = if has_prefix secret [] then some 0 else none
index_of secret (x ∷ xs) =
    if has_prefix secret (x ∷ xs) then some 0 else map_suc (index_of secret xs)

-- "[credential redacted]"
unfoldable pub mark : Bytes
mark =
    b'[' ∷ b'c' ∷ b'r' ∷ b'e' ∷ b'd' ∷ b'e' ∷ b'n' ∷ b't' ∷ b'i' ∷ b'a' ∷ b'l' ∷ b' ' ∷ b'r' ∷ b'e'
    ∷ b'd' ∷ b'a' ∷ b'c' ∷ b't' ∷ b'e' ∷ b'd' ∷ b']' ∷ []

pub record SecretFilter (Sink : Type 0) : Type 0 where
  pub writer : Sink
  pub secret : Bytes
  pub pending : Bytes

module _ {Sink : Type 0} (put : Sink → Bytes → Sink × Option WriteError) where
  abbrev pub new_secret_filter : Sink → Bytes → SecretFilter Sink
  new_secret_filter w secret = record { writer = w; secret = secret; pending = [] }

  -- What stands before a match is written only if there is something.
  unfoldable pub put_before : Sink → Bytes → Sink × Option WriteError
  put_before w [] = (w, none)
  put_before w (x ∷ xs) = put w (x ∷ xs)

  -- One round of the loop of `Write`; an error of a write ends it, and `pending` stays.
  unfoldable pub filter_round : SecretFilter Sink → SecretFilter Sink × Option WriteError
  unfolding index_of put_before mark
  filter_round f = elim (index_of f.secret f.pending) [
    | some match ↦
        let (w1, e1) = put_before f.writer (take match f.pending) in
        elim e1 [
          | some e ↦ (record f { writer = w1 }, some e)
          | none ↦
              let (w2, e2) = put w1 mark in
              elim e2 [
                | some e ↦ (record f { writer = w2 }, some e)
                | none ↦ (
                  record f { writer = w2; pending = drop (match + length f.secret) f.pending },
                  none,
                )
              ]
        ]
    | none ↦
        let count = length f.pending - length f.secret + 1 in
        let (w1, e1) = put f.writer (take count f.pending) in
        elim e1 [
          | some e ↦ (record f { writer = w1 }, some e)
          | none ↦ (record f { writer = w1; pending = drop count f.pending }, none)
        ]
  ]

  -- The loop of `Write` on fuel: nothing comes back where the fuel does not do.
  unfoldable pub filter_loop :
      ℕ → SecretFilter Sink → Option (SecretFilter Sink × Option WriteError)
  unfolding filter_round
  filter_loop zero f = none
  filter_loop (suc fuel) f =
      if ltb (length f.pending) (length f.secret)
      then some (f, none)
      else (let (f', error) = filter_round f in
          elim error [ some e ↦ some (f', some e) | none ↦ filter_loop fuel f' ])

  -- Each round takes a byte off `pending` if the secret is not empty.
  unfoldable pub filter_write :
      SecretFilter Sink → Bytes → Option (SecretFilter Sink × ℕ × Option WriteError)
  unfolding filter_loop
  filter_write f p =
      let longer = record f { pending = f.pending ++ p } in
      elim (filter_loop (suc (length longer.pending)) longer) [
        | none ↦ none
        | some (f', some e) ↦ some (f', 0, some e)
        | some (f', none) ↦ some (f', length p, none)
      ]

  -- `Flush` empties `pending` whether or not the write fails.
  unfoldable pub flush : SecretFilter Sink → SecretFilter Sink × Option WriteError
  flush f =
      let (w, error) = put f.writer f.pending in (record f { writer = w; pending = [] }, error)

  -- The output of a process is copied, write by write, until one fails.
  unfoldable pub copy_output :
      SecretFilter Sink → List Bytes → Option (SecretFilter Sink × Option WriteError)
  unfolding filter_write
  copy_output f [] = some (f, none)
  copy_output f (p ∷ ps) = elim (filter_write f p) [
    | none ↦ none
    | some (f', n, some e) ↦ some (f', some e)
    | some (f', n, none) ↦ copy_output f' ps
  ]
