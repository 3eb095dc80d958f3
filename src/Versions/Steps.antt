-- ===== src/Versions/Steps.antt =====
-- src/version_set.cpp, src/superversion.cpp and src/SSTable.cpp: flushes and compactions that apply
-- edits, readers that hold versions, and owners that hold table files, as sequences of steps.
use rich_graph.Base.{ℕ, ◌<◌, some, List, [], ◌∷◌, ◌++◌, ◌≡◌, refl, arith}
use rich_graph.Versions.{
  TableFiles, VersionSet, VersionEdit, change, ref_version, unref_version, create_file, unref_file,
  log_and_apply, open_versions, append_version,
}
use rich_graph.Versions.Counts.{count, count-append, held, listed, unref_file-NoneRemoved}
use rich_graph.Versions.Unref.{Counted, ref_version-Counted, unref_version-Counted}
use rich_graph.Versions.Apply.{
  Held, current_alive, ref_version-Held, unref_version-Held, log_and_apply-Counted,
  log_and_apply-Held,
}

-- The table files that code outside the versions has a reference to, and the versions that readers
-- have one to, each as often as it has one.
pub record State : Type 0 where
  pub owned : List ℕ
  pub readers : List ℕ
  pub set : VersionSet

pub data Step : State → State → Type 0 where
  creates :
      {owned readers : List ℕ} {s : VersionSet} (f : ℕ)
      → s.files.refs f ≡ 0
      → count f s.files.removed ≡ 0
      → Step
          (record { owned = owned; readers = readers; set = s })
          (record {
            owned = f ∷ owned;
            readers = readers;
            set = record s { files = create_file f s.files };
          })
  applies :
      {owned readers : List ℕ} {s : VersionSet} (edit : VersionEdit)
      → ((f : ℕ) → 0 < count f edit.new_files → 0 < count f owned)
      → Step
          (record { owned = owned; readers = readers; set = s })
          (record { owned = owned; readers = readers; set = log_and_apply edit s })
  sets_version :
      {owned readers : List ℕ} {s : VersionSet} (v : ℕ)
      → s.current ≡ some v
      → Step
          (record { owned = owned; readers = readers; set = s })
          (record { owned = owned; readers = v ∷ readers; set = ref_version v s })
  leaves :
      {owned : List ℕ} {s : VersionSet} (v : ℕ) (xs ys : List ℕ)
      → Step
          (record { owned = owned; readers = xs ++ (v ∷ ys); set = s })
          (record { owned = owned; readers = xs ++ ys; set = unref_version v s })
  disowns :
      {readers : List ℕ} {s : VersionSet} (f : ℕ) (xs ys : List ℕ)
      → Step
          (record { owned = xs ++ (f ∷ ys); readers = readers; set = s })
          (record {
            owned = xs ++ ys;
            readers = readers;
            set = record s { files = unref_file f s.files };
          })

pub data Steps : State → State → Type 0 where
  start : {a : State} → Steps a a
  step : {a b c : State} → Steps a b → Step b c → Steps a c

pub record Sound (a : State) : Type 0 where
  pub counted : Counted (λ f. count f a.owned) a.set
  pub held_by : Held a.readers a.set

pub Step-Sound : {a b : State} → Step a b → Sound a → Sound b
unfolding create_file change count unref_file
Step-Sound (creates {s = s} f none_there never) h = record {
  counted = record {
    files = λ g. let before = h.counted.files g in ground (arith, before, none_there);
    linked = h.counted.linked;
    unused = h.counted.unused;
    none_removed = record {
      kept = λ g lives.
          let before = h.counted.none_removed.kept g in ground (arith, before, never, lives);
    };
  };
  held_by = record { counted = h.held_by.counted };
}
Step-Sound (applies {owned = owned} {readers = readers} {s = s} edit fresh) h =
    let exist : (f : ℕ) → 0 < count f edit.new_files → 0 < s.files.refs f =
      λ f k. omega (arith, fresh f k, h.counted.files f) in
    record {
      counted = log_and_apply-Counted _ readers edit s h.counted h.held_by exist;
      held_by = log_and_apply-Held _ readers edit s h.counted h.held_by exist;
    }
Step-Sound (sets_version {readers = readers} {s = s} v e) h =
    let alive : 0 < s.version_refs v = current_alive readers s h.held_by v e in
    record {
      counted = ref_version-Counted _ v s h.counted alive;
      held_by = ref_version-Held readers v s h.held_by;
    }
Step-Sound (leaves {s = s} v xs ys) h =
    let alive : 0 < s.version_refs v =
      ground (arith, h.held_by.counted v, count-append v xs (v ∷ ys)) in
    record {
      counted = unref_version-Counted _ v s h.counted alive;
      held_by = unref_version-Held v xs ys s h.held_by;
    }
Step-Sound (disowns {s = s} f xs ys) h = record {
  counted = record {
    files = λ g.
        let before = h.counted.files g in
        ground (arith, before, count-append g xs (f ∷ ys), count-append g xs ys);
    linked = h.counted.linked;
    unused = h.counted.unused;
    none_removed = unref_file-NoneRemoved f s.files h.counted.none_removed;
  };
  held_by = record { counted = h.held_by.counted };
}

pub Steps-Sound : {a b : State} → Steps a b → Sound a → Sound b
Steps-Sound start h = h
Steps-Sound (step before e) h = Step-Sound e (Steps-Sound before h)

-- A version set that has just been made.
abbrev pub opened : TableFiles → State
opened files = record { owned = []; readers = []; set = open_versions files }

abbrev pub no_files : TableFiles
no_files = record { refs = λ f. 0; removed = [] }

pub opened-Sound : Sound (opened no_files)
unfolding append_version ref_version change count held listed
opened-Sound = record {
  counted = record {
    files = λ f. omega arith;
    linked = λ v. ground arith;
    unused = λ v le. ground arith;
    none_removed = record { kept = λ f lives. refl };
  };
  held_by = record { counted = λ v. ground arith };
}
