-- ===== src/History.antt =====
-- history_entry.c and history_entries.c: the room's last messages.
use mukite.Common.{
  ℕ, ◌+◌, ◌-◌, Bool, Option, none, some, List, [], ◌∷◌, ◌++◌, ◌==◌, ltb, if◌then◌else◌, Outcome, ok,
  fault, null_pointer, ◌>>=◌,
}
use mukite.Buffer.{BufferPtr, bpt_setter, bpt_size}
use mukite.Utss.{Dls}
use mukite.Jid.{max_jid_part_size}

pub record HistoryEntry : Type 0 where
  pub nick : BufferPtr
  pub header : BufferPtr
  pub inner : BufferPtr
  pub delay : ℕ

abbrev pub history_entry_init : HistoryEntry
history_entry_init = record { nick = none; header = none; inner = none; delay = 0 }

abbrev pub max_history_inner_size : ℕ
max_history_inner_size = 65000

abbrev pub max_history_header_size : ℕ
max_history_header_size = 65000

-- The two setters that nothing calls.
unfoldable pub history_entry_set_header : HistoryEntry → BufferPtr → HistoryEntry × Bool
unfolding bpt_setter
history_entry_set_header e header =
    let (value, done) = bpt_setter e.header header max_history_header_size in
    (record e { header = value }, done)

unfoldable pub history_entry_set_nick : HistoryEntry → BufferPtr → HistoryEntry × Bool
unfolding bpt_setter
history_entry_set_nick e nick =
    let (value, done) = bpt_setter e.nick nick max_jid_part_size in
    (record e { nick = value }, done)

abbrev pub HistoryEntriesList : Type 0
HistoryEntriesList = Dls HistoryEntry

-- The loop at the head of `history_entries_push`, with the list's `size` and `max_size`. Deleting
-- the head of an empty list writes through null.
unfoldable pub remove_extra : List HistoryEntry → ℕ → ℕ → Outcome (List HistoryEntry × ℕ)
remove_extra [] size max_size = if ltb size max_size then fault null_pointer else ok ([], size)
remove_extra (e ∷ es) size max_size =
    let rest = remove_extra es (size - 1) max_size in
    if ltb size max_size then rest else ok (e ∷ es, size)

-- The head, moved to the end of the list.
unfoldable pub recycle :
    List HistoryEntry → ℕ → ℕ → Outcome (HistoryEntriesList × Option HistoryEntry)
recycle [] size max_size = fault null_pointer
recycle (e ∷ es) size max_size =
    ok (record { entries = es ++ (e ∷ []); size = size; max_size = max_size }, some e)

-- `history_entries_push`: the list, and the entry to fill, which stands at the end of the list.
unfoldable pub history_entries_push :
    HistoryEntriesList → Outcome (HistoryEntriesList × Option HistoryEntry)
unfolding remove_extra recycle
history_entries_push l = do
  (es, size) ← remove_extra l.entries l.size l.max_size
  (if l.max_size == 0
      then ok (record l { entries = es; size = size }, none)
      else if ltb size l.max_size
      then ok (
        record l { entries = es ++ (history_entry_init ∷ []); size = size + 1 + 1 },
        some history_entry_init,
      )
      else recycle es size l.max_size)

-- The last entry of a list is replaced.
abbrev pub set_last : List HistoryEntry → HistoryEntry → List HistoryEntry
set_last [] e = []
set_last (x ∷ []) e = e ∷ []
set_last (x ∷ (y ∷ es)) e = x ∷ set_last (y ∷ es) e

-- `history_entry_set_inner` on what `history_entries_push` returned: a null entry is written
-- through, unless the text is refused first for its size.
unfoldable pub set_inner :
    HistoryEntriesList → Option HistoryEntry → BufferPtr → Outcome HistoryEntriesList
unfolding bpt_setter
set_inner l none inner =
    if ltb max_history_inner_size (bpt_size inner) then ok l else fault null_pointer
set_inner l (some e) inner = ok (record l {
  entries =
      set_last l.entries (record e { inner = (bpt_setter e.inner inner max_history_inner_size).0 });
})
