-- ===== src/Db/Data/History.antt =====
-- The rows that a history of updates leaves, and what inserting and clearing do to them.
use tink.Prelude.{
  ℕ, zero, suc, ◌+◌, ◌≤◌, ◌≡◌, ◌≢◌, refl, ap, String, Option, none, some, List, [], ◌∷◌, ◌++◌,
  arith, length, get_elem?, eq_iff, eq_refl, ltb, if◌then◌else◌,
}
use tink.Db.Tables.{DataRow}
use tink.Db.Data.{rows_for, clear_version, find_version}

-- Version v of n is kept when it is one of the last `max`.
abbrev pub kept : ℕ → ℕ → ℕ → String → Option String
kept max n v c = if ltb n (v + max) then some c else none

-- The rows of a workflow whose updates were these pairs of metadata and data, oldest first, the
-- first of them version i + 1, when n versions were made in all.
abbrev pub stored : String → ℕ → ℕ → ℕ → List (String × String) → List DataRow
stored id max n i [] = []
stored id max n i ((m, c) ∷ rest) =
    record { workflow_id = id; version = suc i; metadata = m; content = kept max n (suc i) c }
    ∷ stored id max n (suc i) rest

pub length-stored :
    (id : String) (max n i : ℕ) (h : List (String × String))
    → length (stored id max n i h) ≡ length h
length-stored id max n i [] = refl
length-stored id max n i ((m, c) ∷ h) = ap suc (length-stored id max n (suc i) h)

pub stored-append :
    (id : String) (max n i : ℕ) (h : List (String × String)) (m c : String)
    → stored id max n i (h ++ (m, c) ∷ [])
      ≡ stored id max n i h
        ++ record {
          workflow_id = id;
          version = suc (i + length h);
          metadata = m;
          content = kept max n (suc (i + length h)) c;
        }
          ∷ []
stored-append id max n i [] m c = ground arith
stored-append id max n i ((m', c') ∷ h) m c = ground (arith, stored-append id max n (suc i) h m c)

-- Clearing the version that has just become too old is what one more version asks for.
pub clear-stored :
    (id : String) (max n i v : ℕ) (h : List (String × String))
    → v + max ≡ suc n
    → clear_version id v (stored id max n i h) ≡ stored id max (suc n) i h
unfolding clear_version
clear-stored id max n i v [] e = refl
clear-stored id max n i v ((m, c) ∷ h) e =
    ground (arith, eq_refl id, clear-stored id max n (suc i) v h e)

pub stored-young :
    (id : String) (max n i : ℕ) (h : List (String × String))
    → suc n ≤ max
    → stored id max n i h ≡ stored id max (suc n) i h
stored-young id max n i [] e = refl
stored-young id max n i ((m, c) ∷ h) e = ground (arith, stored-young id max n (suc i) h e)

pub rows_for-append :
    (id : String) (xs ys : List DataRow) → rows_for id (xs ++ ys) ≡ rows_for id xs ++ rows_for id ys
unfolding rows_for
rows_for-append id [] ys = refl
rows_for-append id (x ∷ xs) ys = ground (arith, rows_for-append id xs ys)

pub rows_for-clear :
    (id : String) (v : ℕ) (xs : List DataRow)
    → rows_for id (clear_version id v xs) ≡ clear_version id v (rows_for id xs)
unfolding rows_for clear_version
rows_for-clear id v [] = refl
rows_for-clear id v (x ∷ xs) = ground (arith, rows_for-clear id v xs)

pub rows_for-clear_ne :
    (id other : String) (v : ℕ) (xs : List DataRow)
    → other ≢ id
    → rows_for other (clear_version id v xs) ≡ rows_for other xs
unfolding rows_for clear_version
rows_for-clear_ne id other v [] d = refl
rows_for-clear_ne id other v (x ∷ xs) d =
    ground (
      arith,
      eq_iff x.workflow_id id,
      eq_iff x.workflow_id other,
      rows_for-clear_ne id other v xs d,
    )

pub find_version-stored :
    (id : String) (max n i k : ℕ) (h : List (String × String)) (m c : String)
    → get_elem? h k ≡ some (m, c)
    → find_version (suc (i + k)) (stored id max n i h)
      ≡ some (record {
        workflow_id = id;
        version = suc (i + k);
        metadata = m;
        content = kept max n (suc (i + k)) c;
      })
unfolding find_version
find_version-stored id max n i k [] m c e = ground arith
find_version-stored id max n i zero ((m', c') ∷ h) m c e = ground arith
find_version-stored id max n i (suc k) ((m', c') ∷ h) m c e =
    ground (arith, find_version-stored id max n (suc i) k h m c e)
