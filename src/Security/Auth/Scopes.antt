-- ===== src/Security/Auth/Scopes.antt =====
-- The scopes of a token: what `split` makes of the words that `join` wrote, in any order.
use Prim.Native.String.{◌++◌ as ◌<>◌}
use Prim.Native.Char.{code}
use text.Mathlib.TextLemmas.{nil-append, cons-append}
use tool_permission_enforcer.Base.{
  String, Bool, true, not, ◌&&◌, ◌||◌, List, [], ◌∷◌, ◌≡◌, ◌==◌, refl, ap, arith, string_eq, nat_eq,
  contains, insert_by, order_by, all,
}
use tool_permission_enforcer.Security.Auth.{is_space, push, split_from, split, distinct, join_words}

unfoldable pub no_space : String → Bool
no_space String.[] = true
no_space (String.◌∷◌ c s) = not (is_space (code c)) && no_space s

-- A text that `split` leaves whole: it is not empty and has no white space.
unfoldable pub is_word : String → Bool
is_word s = not (s == "") && no_space s

split_from-word : (w : String) → no_space w ≡ true → split_from w ≡ (w, [])
unfolding split_from no_space
split_from-word String.[] h = refl
split_from-word (String.◌∷◌ c s) h = ground (arith, split_from-word s)

split_from-space :
    (s : String) → split_from (" " <> s) ≡ ("", push (split_from s).0 (split_from s).1)
unfolding split_from is_space nat_eq native.Mathlib.Decide.ℕ_discrete
split_from-space s = rw (cons-append, nil-append) refl

split_from-words :
    (w s : String)
    → no_space w ≡ true
    → split_from (w <> (" " <> s)) ≡ (w, push (split_from s).0 (split_from s).1)
unfolding split_from no_space
split_from-words String.[] s h = rw nil-append (split_from-space s)
split_from-words (String.◌∷◌ c w) s h =
    rw (cons-append c w (" " <> s)) (ground (arith, split_from-words w s))

push-word : (w : String) (ws : List String) → is_word w ≡ true → push w ws ≡ w ∷ ws
unfolding is_word string_eq
push-word String.[] ws h = absurd (ground arith)
push-word (String.◌∷◌ c w) ws h = refl

is_word-no_space : (w : String) → is_word w ≡ true → no_space w ≡ true
unfolding is_word
is_word-no_space w h = ground arith

split_one : (w : String) → is_word w ≡ true → split w ≡ w ∷ []
unfolding split
split_one w h = rw (split_from-word w (is_word-no_space w h)) (push-word w [] h)

split_more : (w s : String) → is_word w ≡ true → split (w <> (" " <> s)) ≡ w ∷ split s
unfolding split
split_more w s h = rw (split_from-words w s (is_word-no_space w h)) (push-word w _ h)

-- The words that were joined are read back.
pub split-join_words : (ws : List String) → all is_word ws ≡ true → split (join_words ws) ≡ ws
unfolding split split_from
split-join_words [] h = refl
split-join_words (w ∷ []) h = split_one w (ground arith)
split-join_words (w ∷ v ∷ ws) h =
    rw (split_more w (join_words (v ∷ ws)) (ground arith))
      (ap (λ words. w ∷ words) (split-join_words (v ∷ ws) (ground arith)))

-- A set has the members that were put into it.
pub contains-distinct : (xs : List String) (a : String) → contains (distinct xs) a ≡ contains xs a
unfolding distinct
contains-distinct [] a = refl
contains-distinct (x ∷ xs) a = ground (arith, contains-distinct xs a, contains-distinct xs x)

contains-insert_by :
    (le : String → String → Bool) (x : String) (xs : List String) (a : String)
    → contains (insert_by le x xs) a ≡ (a == x || contains xs a)
contains-insert_by le x [] a = refl
contains-insert_by le x (y ∷ ys) a = ground (arith, contains-insert_by le x ys a)

-- Sorting keeps the members.
pub contains-order_by :
    (le : String → String → Bool) (xs : List String) (a : String)
    → contains (order_by le xs) a ≡ contains xs a
contains-order_by le [] a = refl
contains-order_by le (x ∷ xs) a =
    ground (arith, contains-insert_by le x (order_by le xs) a, contains-order_by le xs a)
