-- ===== src/Io.antt =====
-- WriteAll of src/property_delta.cpp and src/property_delta_manifest.cpp. What the kernel answers
-- to each `write` is a list; the descriptor is what has been put into the file so far.
use rich_graph.Base.{
  ℕ, zero, suc, ◌-◌, List, [], ◌∷◌, ◌++◌, take, drop, length, ◌≡◌, refl, ap, ◌∙◌, take-append-drop,
  append_assoc, length-drop,
}

-- A return of -1 with EINTR, of -1 with another errno, or of a count.
pub data WriteReturn : Type 0 where
  interrupted : WriteReturn
  failed : WriteReturn
  wrote : ℕ → WriteReturn

-- `pending`: the kernel has answered no further, so the call has not returned.
pub data WriteStatus : Type 0 where
  done write_error short_write pending : WriteStatus

-- What WriteAll returns, the bytes that it put into the file, and the answers not yet used.
pub record Written : Type 0 where
  pub status : WriteStatus
  pub bytes : List ℕ
  pub answers : List WriteReturn

abbrev pub with_prefix : List ℕ → Written → Written
with_prefix xs w = record w { bytes = xs ++ w.bytes }

-- `remaining` is the bytes from the cursor on. A count is at most what was asked for.
unfoldable pub write_all : List WriteReturn → List ℕ → Written
write_all answers [] = record { status = done; bytes = []; answers = answers }
write_all [] (b ∷ bs) = record { status = pending; bytes = []; answers = [] }
write_all (interrupted ∷ answers) (b ∷ bs) = write_all answers (b ∷ bs)
write_all (failed ∷ answers) (b ∷ bs) = record {
  status = write_error;
  bytes = [];
  answers = answers;
}
write_all (wrote zero ∷ answers) (b ∷ bs) = record {
  status = short_write;
  bytes = [];
  answers = answers;
}
write_all (wrote (suc n) ∷ answers) (b ∷ bs) =
    with_prefix (take (suc n) (b ∷ bs)) (write_all answers (drop (suc n) (b ∷ bs)))

-- The file gets the whole of the data if WriteAll returns true, and otherwise a part from the start.
pub record Prefix (written data_bytes : List ℕ) : Type 0 where
  pub rest : List ℕ
  pub splits : written ++ rest ≡ data_bytes

-- Whatever the kernel answers, WriteAll has put a part of the data into the file that begins at
-- its start.
pub write_all-Prefix :
    (answers : List WriteReturn) (xs : List ℕ) → Prefix (write_all answers xs).bytes xs
unfolding write_all
write_all-Prefix answers [] = record { rest = []; splits = refl }
write_all-Prefix [] (b ∷ bs) = record { rest = b ∷ bs; splits = refl }
write_all-Prefix (interrupted ∷ answers) (b ∷ bs) = write_all-Prefix answers (b ∷ bs)
write_all-Prefix (failed ∷ answers) (b ∷ bs) = record { rest = b ∷ bs; splits = refl }
write_all-Prefix (wrote zero ∷ answers) (b ∷ bs) = record { rest = b ∷ bs; splits = refl }
write_all-Prefix (wrote (suc n) ∷ answers) (b ∷ bs) =
    let ih = write_all-Prefix answers (drop n bs) in
    record {
      rest = ih.rest;
      splits =
          ap (◌∷◌ b) (
            append_assoc (take n bs) _ _ ∙ ap (◌++◌ (take n bs)) ih.splits ∙ take-append-drop n bs);
    }

-- When WriteAll returns true it has put the whole of the data into the file.
pub write_all-done :
    (answers : List WriteReturn) (xs : List ℕ)
    → (write_all answers xs).status ≡ done
    → (write_all answers xs).bytes ≡ xs
unfolding write_all
write_all-done answers [] h = refl
write_all-done [] (b ∷ bs) h = cc
write_all-done (interrupted ∷ answers) (b ∷ bs) h = write_all-done answers (b ∷ bs) h
write_all-done (failed ∷ answers) (b ∷ bs) h = cc
write_all-done (wrote zero ∷ answers) (b ∷ bs) h = cc
write_all-done (wrote (suc n) ∷ answers) (b ∷ bs) h =
    ap (◌∷◌ b)
      (ap (◌++◌ (take n bs)) (write_all-done answers (drop n bs) h) ∙ take-append-drop n bs)

-- The kernel answers with no error, and often enough: each count that is not 0 moves the cursor.
abbrev pub Serves : List WriteReturn → ℕ → Type 0
Serves answers zero = Unit {0}
Serves [] (suc left) = ⊥
Serves (interrupted ∷ answers) (suc left) = Serves answers (suc left)
Serves (failed ∷ answers) (suc left) = ⊥
Serves (wrote zero ∷ answers) (suc left) = ⊥
Serves (wrote (suc n) ∷ answers) (suc left) = Serves answers (left - n)

-- When the kernel reports no error and writes a byte at least in each of enough answers, WriteAll
-- returns true.
pub write_all_returns :
    (answers : List WriteReturn) (xs : List ℕ)
    → Serves answers (length xs)
    → (write_all answers xs).status ≡ done
unfolding write_all
write_all_returns answers [] h = refl
write_all_returns [] (b ∷ bs) h = absurd h
write_all_returns (interrupted ∷ answers) (b ∷ bs) h = write_all_returns answers (b ∷ bs) h
write_all_returns (failed ∷ answers) (b ∷ bs) h = absurd h
write_all_returns (wrote zero ∷ answers) (b ∷ bs) h = absurd h
write_all_returns (wrote (suc n) ∷ answers) (b ∷ bs) h =
    write_all_returns answers (drop n bs) (rw length-drop h)
