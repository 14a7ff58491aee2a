-- ===== src/Privacy/Store/Deletion.antt =====
-- privacy/store/pebble.go: what DeleteSession deletes.
use ao_eo.Base.{
  ℕ, ◌≡◌, refl, ap, ◌∙◌, Bool, true, false, ◌&&◌, ◌||◌, [], ◌∷◌, ◌++◌, Option, none, arith, Text,
  ltb, ◌==◌, if◌then◌else◌,
}
use ao_eo.Privacy.Store.{
  between, key_in, key_fake, key_orig, text_eq, session_prefix, session_upper_bound, Pebble,
  text_of, get_original, get_fake, delete_session,
}
use ao_eo.Privacy.Store.Keys.{NoColon}

same_byte :
    (c d : ℕ) (x y : Bool)
    → ((ltb c d || c == d && x) && (ltb d c || d == c && y)) ≡ (c == d && (x && y))
same_byte c d x y = ground arith

-- A session's keys, and no other's, lie between its bounds.
between_iff :
    (a b r : Text)
    → NoColon a
    → NoColon b
    → between (a ++ b':' ∷ []) (a ++ b';' ∷ []) (b ++ b':' ∷ r) ≡ text_eq a b
between_iff [] [] r h k = refl
between_iff [] (d ∷ b) r h k = (let other = k.0 in ground arith)
between_iff (c ∷ a) [] r h k = (let other = h.0 in ground arith)
between_iff (c ∷ a) (d ∷ b) r h k =
    same_byte c d _ _ ∙ ap (λ x. c == d && x) (between_iff a b r h.1 k.1)

-- Their keys as the store writes them
key-between :
    (dir : ℕ) (session session' x : Text)
    → NoColon session
    → NoColon session'
    → between (session_prefix session) (session_upper_bound session) (key_in dir session' x)
      ≡ text_eq session session'
unfolding key_in session_prefix session_upper_bound
key-between dir session session' x h k = between_iff session session' (dir ∷ b':' ∷ x) h k

module _ {D : Type 0} (db : Pebble D) where
  kept_or_not :
      (b : Bool) (lo hi : Text) (d : D) (k : Text)
      → between lo hi k ≡ b
      → db.get (db.delete_range lo hi d) k ≡ (if b then none else db.get d k)
  kept_or_not true lo hi d k e = db.get-deleted lo hi d k e
  kept_or_not false lo hi d k e = db.get-kept lo hi d k e

  text_of-if :
      (b : Bool) (o : Option Text)
      → text_of db (if b then none else o) ≡ (if b then none else text_of db o)
  text_of-if true o = refl
  text_of-if false o = refl

  -- After DeleteSession, GetOriginal and GetFake find nothing in the session, and what they found
  -- before in every other one, also where one name begins with the other. No session has a colon in
  -- its name.
  pub delete_session-forgets :
      (session session' x : Text) (d : D)
      → NoColon session
      → NoColon session'
      → (get_original db session' x (delete_session db session d)
          ≡ (if text_eq session session' then none else get_original db session' x d))
        × (get_fake db session' x (delete_session db session d)
            ≡ (if text_eq session session' then none else get_fake db session' x d))
  unfolding delete_session get_original get_fake key_fake key_orig
  delete_session-forgets session session' x d h k = (
    ap (text_of db) (
          kept_or_not (text_eq session session') (session_prefix session)
            (session_upper_bound session) d (key_in b'f' session' x)
            (key-between b'f' session session' x h k))
        ∙ text_of-if (text_eq session session') _,
    ap (text_of db) (
          kept_or_not (text_eq session session') (session_prefix session)
            (session_upper_bound session) d (key_in b'o' session' x)
            (key-between b'o' session session' x h k))
        ∙ text_of-if (text_eq session session') _,
  )
