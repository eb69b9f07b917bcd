-- ===== src/SshPacket/Names.antt =====
-- Name lists of src/utils/sshPacket.js: joined by commas, in ASCII, and split again.
use metrice.Base.{
  ℕ, ◌%◌, ◌≤◌, ◌<◌, List, [], ◌∷◌, ◌≡◌, refl, ap, ◌∙◌, arith, length, length-append, Str, join,
  split, split-join, Lacks, All, All-append,
}
use metrice.SshPacket.Fields.{IsName}
use metrice.SshPacket.{ascii, names_of, ascii_bytes}

IsAscii : ℕ → Type 0
IsAscii c = c < 128

ascii-ascii_bytes : (text : Str) → All (λ c. c < 128) text → ascii (ascii_bytes text) ≡ text
unfolding ascii ascii_bytes
ascii-ascii_bytes [] h = refl
ascii-ascii_bytes (c ∷ text) (small, h) =
    let same : c % 256 % 128 ≡ c = omega arith in rw (same, ascii-ascii_bytes text h) refl

join-All : (names : List Str) → All IsName names → All (λ c. c < 128) (join (b',' ∷ []) names)
unfolding join
join-All [] h = tt
join-All (name ∷ []) ((_, small, _), h) = small
join-All (name ∷ next ∷ names) ((_, small, _), h) =
    All-append (λ c. c < 128) name _ small (omega arith, join-All (next ∷ names) h)

length-join :
    (name : Str) (names : List Str) → length name ≤ length (join (b',' ∷ []) (name ∷ names))
unfolding join
length-join name [] = omega arith
length-join name (next ∷ names) =
    omega (arith, length-append name (b',' ∷ join (b',' ∷ []) (next ∷ names)))

no_commas : (names : List Str) → All IsName names → All (Lacks b',') names
no_commas [] h = tt
no_commas (name ∷ names) ((_, _, lacks), h) = (lacks, no_commas names h)

names_of_text : (text : Str) → 1 ≤ length text → names_of text ≡ split b',' text
unfolding names_of
names_of_text [] h = absurd (omega arith)
names_of_text (c ∷ text) h = refl

names_of-join : (names : List Str) → All IsName names → names_of (join (b',' ∷ []) names) ≡ names
names_of-join [] h = unfold names_of join in refl
names_of-join (name ∷ names) (ok, h) =
    names_of_text (join (b',' ∷ []) (name ∷ names)) (omega (arith, ok.0, length-join name names))
    ∙ split-join b',' name names (no_commas (name ∷ names) (ok, h))

pub names_of-ascii :
    (names : List Str)
    → All IsName names
    → names_of (ascii (ascii_bytes (join (b',' ∷ []) names))) ≡ names
names_of-ascii names h =
    ap names_of (ascii-ascii_bytes (join (b',' ∷ []) names) (join-All names h))
    ∙ names_of-join names h
