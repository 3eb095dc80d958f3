-- ===== src/Store/View/Append.antt =====
-- A read view with one more file: what the lookups through it range over.
use rich_graph.Base.{ℕ, List, [], ◌∷◌, ◌++◌, ◌≡◌, refl, sym, ap, ◌∙◌, append-nil, append_assoc}
use rich_graph.Delta.{PropertyDeltaRecord, LogicalKey}
use rich_graph.Delta.File.{PropertyDeltaFile}
use rich_graph.Delta.Kept.{written}
use rich_graph.Delta.Newest.{newest, newest-deduplicate}
use rich_graph.Delta.Search.{Holds}
use rich_graph.Store.View.Laws.{AllHold, nil, cons, all_records, newest-append}

pub AllHold-append :
    {files : List PropertyDeltaFile} {rss : List (List PropertyDeltaRecord)}
    (file : PropertyDeltaFile) (rs : List PropertyDeltaRecord)
    → AllHold files rss
    → Holds file rs
    → AllHold (files ++ (file ∷ [])) (rss ++ (rs ∷ []))
AllHold-append file rs nil h = cons h nil
AllHold-append file rs (cons g gs) h = cons g (AllHold-append file rs gs h)

all_records-append :
    (rss : List (List PropertyDeltaRecord)) (rs : List PropertyDeltaRecord)
    → all_records (rss ++ (rs ∷ [])) ≡ all_records rss ++ rs
all_records-append [] rs = append-nil rs
all_records-append (r ∷ rss) rs =
    ap (◌++◌ r) (all_records-append rss rs) ∙ sym (append_assoc r (all_records rss) rs)

-- Writing the records down and putting them behind the others keeps every answer.
pub newest-written :
    (key : LogicalKey) (read : ℕ) (rss : List (List PropertyDeltaRecord))
    (rs : List PropertyDeltaRecord)
    → newest key read (all_records (rss ++ (written rs ∷ [])))
      ≡ newest key read (all_records rss ++ rs)
newest-written key read rss rs =
    rw
      (
        all_records-append rss (written rs),
        newest-append key read (all_records rss) (written rs),
        newest-append key read (all_records rss) rs,
        newest-deduplicate key read rs,
      )
      refl
