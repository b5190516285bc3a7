-- ===== src/Bridge/Stream/Passed.antt =====
-- What a client of a stream receives and what is booked for it.
use gpu_relay.Common.{
  ℕ, ◌+◌, ◌/◌, ◌<◌, String, ◌≡◌, refl, ◌⊎◌, inl, inr, Bool, Option, none, some, List, [], ◌∷◌,
  arith, All, if◌then◌else◌,
}
use gpu_relay.Bridge.Stream.{
  Event, data_line, done, Line, chunk, end_mark, skipped, line_of, tokens_of, pass_on,
}

line-cases : (l : Line) → ((c : String) × (l ≡ chunk c)) ⊎ (l ≡ end_mark) ⊎ (l ≡ skipped)
line-cases (chunk c) = inl (c, refl)
line-cases end_mark = inr (inl refl)
line-cases skipped = inr (inr refl)

-- The end mark comes at most once, and nothing behind it.
abbrev pub EndsOnce : List Event → Type 0
EndsOnce [] = Unit
EndsOnce (data_line c ∷ es) = EndsOnce es
EndsOnce (done ∷ es) = es ≡ []

abbrev worth : Option ℕ → ℕ
worth none = 0
worth (some n) = n

short_free : (o : Option ℕ) (t : ℕ) → worth o < 4 → t ≡ 0 → tokens_of o + t ≡ 0
short_free none t h e = omega arith
short_free (some k) t h e = omega arith

-- A chunk of less than four characters, or the end mark.
abbrev pub Brief : (String → Option ℕ) → Event → Type 0
Brief delta done = Unit
Brief delta (data_line c) = worth (delta c) < 4

-- What the chunks of the client's events are worth.
abbrev pub text_length : (String → Option ℕ) → List Event → ℕ
text_length delta [] = 0
text_length delta (done ∷ es) = text_length delta es
text_length delta (data_line c ∷ es) = worth (delta c) + text_length delta es

-- A quarter of each chunk's characters, rounded down.
abbrev pub quarters : (String → Option ℕ) → List Event → ℕ
quarters delta [] = 0
quarters delta (done ∷ es) = quarters delta es
quarters delta (data_line c ∷ es) = worth (delta c) / 4 + quarters delta es

-- The tokens of a stream are rounded down for each chunk: an answer whose chunks have less than four
-- characters each, however many they are, is booked with no completion tokens.
pub short_chunks_free :
    (fix : String → String) (delta : String → Option ℕ) (ollama : Bool) (lines : List String)
    → All (Brief delta) (pass_on fix delta ollama lines).0
    → (pass_on fix delta ollama lines).1 ≡ 0
unfolding pass_on
short_chunks_free fix delta ollama [] h = refl
short_chunks_free fix delta ollama (line ∷ lines) h = elim (line-cases (line_of line)) [
  | inl (c, e) ↦
      let h' = rw (e, pass_on) at h in
      rw (e, pass_on)
        (short_free (delta (if ollama then fix c else c)) _ h'.0
          (short_chunks_free fix delta ollama lines h'.1))
  | inr (inl e) ↦ rw (e, pass_on) refl
  | inr (inr e) ↦ rw (e, pass_on) (short_chunks_free fix delta ollama lines (rw (e, pass_on) at h))
]
