-- ===== src/Privacy/Store/Tests.antt =====
-- privacy/store/pebble.go: a database as a function from keys to values.
use ao_eo.Base.{◌≡◌, refl, ◌&&◌, Option, some, none, arith, if◌then◌else◌, Text, codes}
use ao_eo.Privacy.Store.{
  between, delete_session, Pebble, last_set, set_mapping, get_original, get_fake, text_eq, key_fake,
}
use ao_eo.Privacy.Store.Deletion.{delete_session-forgets}
use ao_eo.Privacy.Store.Lookup.{set_mapping-found}

abbrev Table : Type 0
Table = Text → Option Text

abbrev over : Option Text → Option Text → Option Text
over none old = old
over (some v) old = some v

memory_db : Pebble Table
memory_db = record {
  get = λ d k. d k;
  apply_batch = λ batch d k. over (last_set batch k) (d k);
  get-set = λ batch d k e. rw (e, over);
  get-unset = λ batch d k e. rw (e, over);
  delete_range = λ lo hi d k. if between lo hi k then none else d k;
  get-deleted = λ lo hi d k e. rw e;
  get-kept = λ lo hi d k e. rw e;
}

abbrev empty : Table
empty k = none

abbrev s1 : Text
s1 = codes "s1"

set_mapping-found_example :
    (get_original memory_db s1
        (codes "#1")
        (set_mapping memory_db s1 (codes "#1") (codes "Ann") 1_700_000_000_000_000_000 empty)
      ≡ (if text_eq s1 s1 && text_eq (codes "#1") (codes "#1")
          then some (codes "Ann")
          else get_original memory_db s1 (codes "#1") empty))
    × (get_fake memory_db s1
          (codes "#1")
          (set_mapping memory_db s1 (codes "#1") (codes "Ann") 1_700_000_000_000_000_000 empty)
        ≡ (if text_eq s1 s1 && text_eq (codes "Ann") (codes "#1")
            then some (codes "#1")
            else get_fake memory_db s1 (codes "#1") empty))
set_mapping-found_example =
    set_mapping-found memory_db s1 s1 (codes "#1") (codes "Ann") (codes "#1")
      1_700_000_000_000_000_000 empty (omega arith, (omega arith, tt))
      (omega arith, (omega arith, tt)) (omega arith)

-- A colon in a session's name: two sessions share a key.
shared_key : key_fake (codes "a:f:b") (codes "c") ≡ key_fake (codes "a") (codes "b:f:c")
unfolding key_fake
shared_key = refl

abbrev filled : Table
filled = set_mapping memory_db s1 (codes "#1") (codes "Ann") 7 empty

delete_session-forgets_example :
    (get_original memory_db (codes "s12") (codes "#1") (delete_session memory_db s1 filled) ≡ (
      if text_eq s1 (codes "s12")
      then none
      else get_original memory_db (codes "s12") (codes "#1") filled))
    × (get_fake memory_db (codes "s12") (codes "#1") (delete_session memory_db s1 filled) ≡ (
        if text_eq s1 (codes "s12")
        then none
        else get_fake memory_db (codes "s12") (codes "#1") filled))
delete_session-forgets_example =
    delete_session-forgets memory_db s1 (codes "s12") (codes "#1") filled
      (omega arith, (omega arith, tt)) (omega arith, (omega arith, (omega arith, tt)))
