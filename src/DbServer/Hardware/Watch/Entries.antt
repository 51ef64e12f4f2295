-- ===== src/DbServer/Hardware/Watch/Entries.antt =====
-- The entries of the map `watch`, and the channels that are open.
use tink.Prelude.{
  ℕ, zero, suc, ◌<◌, ◌==◌, ◌≡◌, ◌≢◌, ◌⊎◌, inl, inr, refl, sym, String, Bool, true, false, not, none,
  some, Bool-cases, Option-cases, List, [], ◌∷◌, ◌++◌, set, get_elem?, length, lt-of-get_elem?,
  get_elem?-set_self, get_elem?-set_ne, get_elem?-middle, arith, eq_iff, str_ne, In, str_eq,
  if◌then◌else◌,
}
use mathlib.Core.Path.{subst}
use tink.Convert.{put}
use tink.DbServer.Hardware.{Channel, entry}
use tink.DbServer.Hardware.Watch.{
  Phase, waiting, leaving, closing, gone, Watcher, drop_entry, new_channel,
}

-- The channel is there and not closed.
unfoldable pub is_open : ℕ → List Channel → Bool
is_open c channels = elim (get_elem? channels c) [ none ↦ false | some ch ↦ not ch.closed ]

-- The watcher has removed its entry, or was evicted.
abbrev pub is_out : Phase → Bool
is_out waiting = false
is_out leaving = false
is_out closing = true
is_out gone = true

-- The map, the channels and the watchers fit together.
pub record IsSound (entries : List (String × ℕ)) (channels : List Channel) (watchers : List Watcher)
    : Type 0 where
  pub usable : (id : String) (c : ℕ) → entry id entries ≡ some c → is_open c channels ≡ true
  pub alone : (i j : String) (c : ℕ) → entry i entries ≡ some c → entry j entries ≡ some c → i ≡ j
  pub made : (x : Watcher) → In x watchers → x.channel < length channels
  pub named :
      (x : Watcher) (i : String) → In x watchers → entry i entries ≡ some x.channel → i ≡ x.id
  pub out :
      (x : Watcher) → In x watchers → is_out x.phase ≡ true → entry x.id entries ≢ some x.channel

pub entry-drop :
    (id i : String) (entries : List (String × ℕ))
    → entry i (drop_entry id entries) ≡ (if str_eq i id then none else entry i entries)
unfolding entry drop_entry
entry-drop id i [] = ground arith
entry-drop id i ((key, c) ∷ rest) =
    ground (arith, eq_iff key id, eq_iff key i, eq_iff i id, entry-drop id i rest)

pub entry-put :
    (id i : String) (c : ℕ) (entries : List (String × ℕ))
    → entry i (put id c entries) ≡ (if str_eq i id then some c else entry i entries)
unfolding entry put
entry-put id i c [] = ground (arith, eq_iff id i, eq_iff i id)
entry-put id i c ((key, d) ∷ rest) =
    ground (arith, eq_iff key id, eq_iff key i, eq_iff i id, eq_iff id i, entry-put id i c rest)

pub is_open-lt : (c : ℕ) (channels : List Channel) → is_open c channels ≡ true → c < length channels
unfolding is_open
is_open-lt c channels h = elim (Option-cases (get_elem? channels c)) [
  | inl n ↦ absurd ground (arith, n)
  | inr (ch, e) ↦ lt-of-get_elem? channels c e
]

pub get_elem?-append_left :
    {A : Type 0} (xs ys : List A) (c : ℕ) → c < length xs → get_elem? (xs ++ ys) c ≡ get_elem? xs c
get_elem?-append_left [] ys c h = absurd omega arith
get_elem?-append_left (x ∷ xs) ys zero h = refl
get_elem?-append_left (x ∷ xs) ys (suc c) h = get_elem?-append_left xs ys c omega arith

pub is_open-append :
    (c : ℕ) (xs ys : List Channel) → is_open c xs ≡ true → is_open c (xs ++ ys) ≡ true
unfolding is_open
is_open-append c xs ys h = ground (arith, get_elem?-append_left xs ys c (is_open-lt c xs h))

pub is_open-new : (xs : List Channel) → is_open (length xs) (xs ++ new_channel ∷ []) ≡ true
unfolding is_open
is_open-new xs = ground (arith, get_elem?-middle xs new_channel [])

pub is_open-set_ne :
    (c d : ℕ) (ch : Channel) (xs : List Channel)
    → c ≢ d
    → is_open c xs ≡ true
    → is_open c (set xs d ch) ≡ true
unfolding is_open
is_open-set_ne c d ch xs n h =
    ground (arith, get_elem?-set_ne xs {i = d} {j = c} ch (λ e. n (sym e)))

pub is_open-set_self :
    (c : ℕ) (ch : Channel) (xs : List Channel)
    → ch.closed ≡ false
    → is_open c xs ≡ true
    → is_open c (set xs c ch) ≡ true
unfolding is_open
is_open-set_self c ch xs o h = ground (arith, o, get_elem?-set_self xs c ch (is_open-lt c xs h))

-- a write to another channel, or one that keeps the channel open
pub is_open-set :
    (c d : ℕ) (ch : Channel) (xs : List Channel)
    → (c ≢ d) ⊎ (ch.closed ≡ false)
    → is_open c xs ≡ true
    → is_open c (set xs d ch) ≡ true
is_open-set c d ch xs (inl n) h = is_open-set_ne c d ch xs n h
is_open-set c d ch xs (inr o) h = elim (Bool-cases (d == c)) [
  | inl e ↦
      subst (λ x. is_open c (set xs x ch) ≡ true) ground (arith, e) (is_open-set_self c ch xs o h)
  | inr e ↦ is_open-set_ne c d ch xs (λ x. ground (arith, e, x)) h
]

pub In-set : {A : Type 0} (xs : List A) (n : ℕ) (v y : A) → In y (set xs n v) → (v ≡ y) ⊎ In y xs
In-set [] n v y a = absurd a
In-set (x ∷ xs) zero v y (inl e) = inl e
In-set (x ∷ xs) zero v y (inr a) = inr (inr a)
In-set (x ∷ xs) (suc n) v y (inl e) = inr (inl e)
In-set (x ∷ xs) (suc n) v y (inr a) = elim (In-set xs n v y a) [
  | inl e ↦ inl e
  | inr b ↦ inr (inr b)
]

pub In-snoc : {A : Type 0} (xs : List A) (z y : A) → In y (xs ++ z ∷ []) → (z ≡ y) ⊎ In y xs
In-snoc [] z y (inl e) = inl e
In-snoc [] z y (inr a) = absurd a
In-snoc (x ∷ xs) z y (inl e) = inr (inl e)
In-snoc (x ∷ xs) z y (inr a) = elim (In-snoc xs z y a) [ inl e ↦ inl e | inr b ↦ inr (inr b) ]

pub In-get : {A : Type 0} (xs : List A) (n : ℕ) (x : A) → get_elem? xs n ≡ some x → In x xs
In-get [] n x h = absurd ground arith
In-get (y ∷ xs) zero x h = inl ground arith
In-get (y ∷ xs) (suc n) x h = inr (In-get xs n x h)

pub kept :
    (id i : String) (c : ℕ) (es : List (String × ℕ))
    → entry i (drop_entry id es) ≡ some c
    → entry i es ≡ some c
kept id i c es h = ground (arith, entry-drop id i es, h)

-- an entry after `put`: the new one, or one that the deletion keeps
pub added :
    (id i : String) (d c : ℕ) (es : List (String × ℕ))
    → entry i (put id d es) ≡ some c
    → ((i ≡ id) × (d ≡ c)) ⊎ ((i ≢ id) × (entry i (drop_entry id es) ≡ some c))
added id i d c es h = elim (Bool-cases (str_eq i id)) [
  | inl e ↦ inl ((eq_iff i id).0 e, ground (arith, entry-put id i d es, h, e))
  | inr e ↦ inr (str_ne i id e, ground (arith, entry-put id i d es, entry-drop id i es, h, e))
]

-- the place of the next channel is in no entry
pub fresh :
    (i : String) (c : ℕ) (es : List (String × ℕ)) (chs : List Channel) (ws : List Watcher)
    (id : String)
    → IsSound (drop_entry id es) chs ws
    → entry i (drop_entry id es) ≡ some c
    → length chs ≢ c
fresh i c es chs ws id h e q = omega (arith, is_open-lt c chs (h.usable i c e), q)
