-- ===== src/Prelude/Words.antt =====
-- `s.split()` and `" ".join(ws)` of Python, which undo each other on lists of words, and `sorted` on
-- texts.
use Prim.Native.Char.{Char, code}
use Prim.Native.String.{String, compare}
use mathlib.Core.Path.{◌≡◌, refl, ap, subst, ◌∙◌}
use mathlib.Core.Logic.{◌⊎◌, ◌↔◌, inl, inr}
use mathlib.Core.Bool.{Bool, true, false, not}
use mathlib.Core.List.{List, [], ◌∷◌}
use text.Mathlib.Text.{is_le}
use simple_a2a_registry.Prelude.Tests.{if◌then◌else◌, Bool-cases}
use simple_a2a_registry.Prelude.Lists.{In, contains, contains→In}
use simple_a2a_registry.Prelude.Strip.{is_space}

-- Does a text start inside a word?
unfoldable pub in_word : String → Bool
in_word String.[] = false
in_word (String.◌∷◌ c s) = not (is_space (code c))

-- One more letter in front: of the first word, or as a word of its own.
abbrev pub attach : Char → Bool → List String → List String
attach c true (w ∷ ws) = String.◌∷◌ c w ∷ ws
attach c true [] = String.◌∷◌ c String.[] ∷ []
attach c false ws = String.◌∷◌ c String.[] ∷ ws

unfoldable pub split_words : String → List String
unfolding in_word
split_words String.[] = []
split_words (String.◌∷◌ c s) =
    let rest = split_words s in if is_space (code c) then rest else attach c (in_word s) rest

-- A text before another.
abbrev pub before : String → String → String
before String.[] t = t
before (String.◌∷◌ c s) t = String.◌∷◌ c (before s t)

unfoldable pub join_words : List String → String
join_words [] = ""
join_words (w ∷ []) = w
join_words (w ∷ v ∷ ws) = before w (String.◌∷◌ " " (join_words (v ∷ ws)))

-- A text without a space in it.
abbrev pub HasNoSpace : String → Type 0
HasNoSpace String.[] = Unit
HasNoSpace (String.◌∷◌ c s) = (is_space (code c) ≡ false) × HasNoSpace s

abbrev pub IsWord : String → Type 0
IsWord String.[] = ⊥
IsWord (String.◌∷◌ c s) = (is_space (code c) ≡ false) × HasNoSpace s

split_words_step :
    (c : Char) (s : String)
    → is_space (code c) ≡ false
    → split_words (String.◌∷◌ c s) ≡ attach c (in_word s) (split_words s)
unfolding split_words
split_words_step c s h = rw h refl

split_words_one :
    (c : Char) (w rest : String)
    → IsWord (String.◌∷◌ c w)
    → in_word rest ≡ false
    → split_words (before (String.◌∷◌ c w) rest) ≡ String.◌∷◌ c w ∷ split_words rest
unfolding in_word
split_words_one c String.[] rest (h, _) e = split_words_step c rest h ∙ rw e refl
split_words_one c (String.◌∷◌ d w) rest (h, k) e =
    split_words_step c (before (String.◌∷◌ d w) rest) h
    ∙ rw (k.0, split_words_one d w rest k e) refl

HasNoSpace-IsWord : (w : String) → IsWord w → HasNoSpace w
HasNoSpace-IsWord String.[] h = absurd h
HasNoSpace-IsWord (String.◌∷◌ c w) h = h

-- What stands behind a word and a space is split on its own.
split_words_cons :
    (w rest : String)
    → IsWord w
    → split_words (before w (String.◌∷◌ " " rest)) ≡ w ∷ split_words rest
unfolding split_words in_word is_space
split_words_cons String.[] rest h = absurd h
split_words_cons (String.◌∷◌ c w) rest h = split_words_one c w (String.◌∷◌ " " rest) h refl

split_words_word : (w : String) → IsWord w → split_words w ≡ w ∷ []
unfolding in_word
split_words_word String.[] h = absurd h
split_words_word (String.◌∷◌ c String.[]) h = unfold split_words in rw h.0 refl
split_words_word (String.◌∷◌ c (String.◌∷◌ d w)) h =
    split_words_step c (String.◌∷◌ d w) h.0 ∙ rw (h.1.0, split_words_word (String.◌∷◌ d w) h.1) refl

abbrev pub AllWords : List String → Type 0
AllWords [] = Unit
AllWords (w ∷ ws) = IsWord w × AllWords ws

-- Splitting what was joined gives the words back.
pub split_words-join_words : (ws : List String) → AllWords ws → split_words (join_words ws) ≡ ws
unfolding join_words
split_words-join_words [] h = unfold split_words in refl
split_words-join_words (w ∷ []) (h, _) = split_words_word w h
split_words-join_words (w ∷ v ∷ ws) (h, hs) =
    split_words_cons w (join_words (v ∷ ws)) h
    ∙ ap (λ rest. w ∷ rest) (split_words-join_words (v ∷ ws) hs)

attach-AllWords :
    (c : Char) (b : Bool) (ws : List String)
    → is_space (code c) ≡ false
    → AllWords ws
    → AllWords (attach c b ws)
attach-AllWords c true [] h all = ((h, tt), tt)
attach-AllWords c true (w ∷ ws) h (k, all) = ((h, HasNoSpace-IsWord w k), all)
attach-AllWords c false ws h all = ((h, tt), all)

-- The parts of a split are words.
pub split_words-AllWords : (s : String) → AllWords (split_words s)
unfolding split_words
split_words-AllWords String.[] = tt
split_words-AllWords (String.◌∷◌ c s) = elim (Bool-cases (is_space (code c))) [
  | inl e ↦ rw e (split_words-AllWords s)
  | inr n ↦ rw n (attach-AllWords c (in_word s) (split_words s) n (split_words-AllWords s))
]

pub AllWords-In : (ws : List String) (w : String) → AllWords ws → In w ws → IsWord w
AllWords-In [] w h m = absurd m
AllWords-In (v ∷ ws) w (h, hs) (inl e) = subst IsWord e h
AllWords-In (v ∷ ws) w (h, hs) (inr m) = AllWords-In ws w hs m

-- A text is put before the first one that is not less.
abbrev pub insert_sorted : String → List String → List String
insert_sorted w [] = w ∷ []
insert_sorted w (v ∷ ws) = if is_le (compare w v) then w ∷ v ∷ ws else v ∷ insert_sorted w ws

unfoldable pub sorted : List String → List String
sorted [] = []
sorted (w ∷ ws) = insert_sorted w (sorted ws)

In-insert_sorted : (w x : String) (ws : List String) → In x (insert_sorted w ws) → (w ≡ x) ⊎ In x ws
In-insert_sorted w x [] (inl e) = inl e
In-insert_sorted w x [] (inr m) = absurd m
In-insert_sorted w x (v ∷ ws) m = elim (Bool-cases (is_le (compare w v))) [
  | inl e ↦ rw e at m
  | inr n ↦ elim (rw n at m) [
    | inl e ↦ inr (inl e)
    | inr k ↦ elim (In-insert_sorted w x ws k) [ inl e ↦ inl e | inr l ↦ inr (inr l) ]
  ]
]

insert_sorted-In : (w x : String) (ws : List String) → (w ≡ x) ⊎ In x ws → In x (insert_sorted w ws)
insert_sorted-In w x [] h = h
insert_sorted-In w x (v ∷ ws) h = elim (Bool-cases (is_le (compare w v))) [
  | inl e ↦ rw e h
  | inr n ↦ rw n (elim h [
    | inl e ↦ inr (insert_sorted-In w x ws (inl e))
    | inr (inl e) ↦ inl e
    | inr (inr k) ↦ inr (insert_sorted-In w x ws (inr k))
  ])
]

-- Sorting keeps the elements.
pub In-sorted_iff : (x : String) (ws : List String) → In x (sorted ws) ↔ In x ws
unfolding sorted
In-sorted_iff x [] = (λ m. m, λ m. m)
In-sorted_iff x (w ∷ ws) = (
  λ m. elim (In-insert_sorted w x (sorted ws) m) [
    | inl e ↦ inl e
    | inr k ↦ inr ((In-sorted_iff x ws).0 k)
  ],
  λ m.
      insert_sorted-In w x (sorted ws)
        (elim m [ inl e ↦ inl e | inr k ↦ inr ((In-sorted_iff x ws).1 k) ]),
)

-- `set(xs)`, with the last of equal elements kept.
unfoldable pub distinct : List String → List String
distinct [] = []
distinct (x ∷ xs) = let rest = distinct xs in if contains xs x then rest else x ∷ rest

pub In-distinct_iff : (x : String) (xs : List String) → In x (distinct xs) ↔ In x xs
unfolding distinct
In-distinct_iff x [] = (λ m. m, λ m. m)
In-distinct_iff x (y ∷ ys) = elim (Bool-cases (contains ys y)) [
  | inl e ↦ rw e (
    λ m. inr ((In-distinct_iff x ys).0 m),
    λ m.
        (In-distinct_iff x ys).1
          (elim m [ inl q ↦ subst (λ z. In z ys) q (contains→In ys y e) | inr k ↦ k ]),
  )
  | inr n ↦ rw n (
    λ m. elim m [ inl q ↦ inl q | inr k ↦ inr ((In-distinct_iff x ys).0 k) ],
    λ m. elim m [ inl q ↦ inl q | inr k ↦ inr ((In-distinct_iff x ys).1 k) ],
  )
]

pub AllWords-intro : (ws : List String) → ((w : String) → In w ws → IsWord w) → AllWords ws
AllWords-intro [] f = tt
AllWords-intro (w ∷ ws) f = (f w (inl refl), AllWords-intro ws (λ x m. f x (inr m)))
