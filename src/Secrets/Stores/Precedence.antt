-- ===== src/Secrets/Stores/Precedence.antt =====
-- What `load_from` connects, and in which order the connected stores are asked.
use mathlib.Core.List.{append-nil, append_assoc, reverse-append}
use spiceai.Prelude.{
  false, Option, none, some, List, [], ◌∷◌, ◌++◌, reverse, ◌≡◌, ◌≢◌, refl, sym, ap, ◌∙◌, inl, inr,
  arith,
}
use spiceai.Prelude.Lists.{All}
use spiceai.Prelude.Text.{Text, ◌==◌}
use spiceai.Prelude.Result.{Result, ok, err, ◌>>=◌, Result-cases}
use spiceai.Secrets.Provider.{Error, Features, SpicepodSecret, spicepod_secret_store_type}
use spiceai.Secrets.Stores.{
  SecretStore, Entries, Secrets, insert, get, Loaders, load_secret_store, insert_loaded, load_loop,
  with_default, finish_load, load_from, first_secret, get_secret,
}

-- No two of the secrets have the same name.
abbrev pub Distinct : List SpicepodSecret → Type 0
Distinct [] = Unit
Distinct (s ∷ ss) = All (λ t. (s.name == t.name) ≡ false) ss × Distinct ss

abbrev pub entry : Text → Result Error SecretStore → Entries
entry name (ok store) = (name, store) ∷ []
entry name (err e) = []

module _ (features : Features) (loaders : Loaders) where
  abbrev pub store_of : SpicepodSecret → Result Error SecretStore
  store_of s = do
    store_type ← spicepod_secret_store_type features s
    load_secret_store features loaders store_type

  -- The type of store that each secret asks for is known.
  abbrev pub Typed : List SpicepodSecret → Type 0
  Typed [] = Unit
  Typed (s ∷ ss) = ((e : Error) → spicepod_secret_store_type features s ≢ err e) × Typed ss

  -- The stores that could be loaded, in the order of the secrets.
  abbrev pub loaded : List SpicepodSecret → Entries
  loaded [] = []
  loaded (s ∷ ss) = entry s.name (store_of s) ++ loaded ss

insert_fresh :
    (k : Text) (v : SecretStore) (m : Entries) → get k m ≡ none → insert k v m ≡ m ++ (k, v) ∷ []
unfolding insert get
insert_fresh k v [] h = refl
insert_fresh k v ((j, w) ∷ m) h = ground (arith, insert_fresh k v m)

get_append_fresh :
    (k j : Text) (v : SecretStore) (m : Entries)
    → get k m ≡ none
    → (j == k) ≡ false
    → get k (m ++ (j, v) ∷ []) ≡ none
unfolding get
get_append_fresh k j v [] h e = ground arith
get_append_fresh k j v ((i, w) ∷ m) h e = ground (arith, get_append_fresh k j v m)

Fresh : Entries → List SpicepodSecret → Type 0
Fresh m = All (λ (s : SpicepodSecret). get s.name m ≡ none)

Fresh-entry :
    (j : Text) (r : Result Error SecretStore) (m : Entries) (ss : List SpicepodSecret)
    → Fresh m ss
    → All (λ t. (j == t.name) ≡ false) ss
    → Fresh (m ++ entry j r) ss
unfolding Fresh
Fresh-entry j r m [] f d = tt
Fresh-entry j (err e) m (s ∷ ss) f d = (rw (append-nil m) f.0, Fresh-entry j (err e) m ss f.1 d.1)
Fresh-entry j (ok v) m (s ∷ ss) f d =
    (get_append_fresh s.name j v m f.0 d.0, Fresh-entry j (ok v) m ss f.1 d.1)

Fresh-nil : (ss : List SpicepodSecret) → Fresh [] ss
unfolding Fresh get
Fresh-nil [] = tt
Fresh-nil (s ∷ ss) = (refl, Fresh-nil ss)

insert_loaded-entry :
    (name : Text) (r : Result Error SecretStore) (m : Entries)
    → get name m ≡ none
    → insert_loaded name r m ≡ m ++ entry name r
unfolding insert_loaded
insert_loaded-entry name (ok v) m f = insert_fresh name v m f
insert_loaded-entry name (err e) m f = sym (append-nil m)

module _ (features : Features) (loaders : Loaders) where
  -- The loop goes through secrets whose types are known and whose names are new.
  load_loop-loaded :
      (ss rest : List SpicepodSecret) (m : Entries)
      → Fresh m ss
      → Distinct ss
      → Typed features loaders ss
      → load_loop features loaders (ss ++ rest) m
        ≡ load_loop features loaders rest (m ++ loaded features loaders ss)
  unfolding Fresh load_loop
  load_loop-loaded [] rest m f d t = rw append-nil
  load_loop-loaded (s ∷ ss) rest m f d t =
      elim (Result-cases (spicepod_secret_store_type features s)) [
        | inr (e, eq) ↦ absurd (t.0 e eq)
        | inl (ty, eq) ↦
            let r = load_secret_store features loaders ty in
            let m' = m ++ entry s.name r in
            let ih = load_loop-loaded ss rest m' (Fresh-entry s.name r m ss f.1 d.0) d.1 t.1 in
            rw (eq, load_loop, insert_loaded-entry s.name r m f.0)
              (ih ∙ ap (load_loop features loaders rest) (append_assoc m (entry s.name r) _))
      ]

  -- The loop ends at a secret whose type is unknown, with what it has inserted so far.
  load_loop-err :
      (ss : List SpicepodSecret) (s : SpicepodSecret) (rest : List SpicepodSecret) {e : Error}
      → Distinct ss
      → Typed features loaders ss
      → spicepod_secret_store_type features s ≡ err e
      → load_loop features loaders (ss ++ (s ∷ rest)) [] ≡ (err e, loaded features loaders ss)
  load_loop-err ss s rest d t h =
      load_loop-loaded ss (s ∷ rest) [] (Fresh-nil ss) d t ∙ unfold load_loop in rw (h, load_loop)

  loaded-append :
      (ss : List SpicepodSecret) (s : SpicepodSecret)
      → loaded features loaders (ss ++ s ∷ [])
        ≡ loaded features loaders ss ++ entry s.name (store_of features loaders s)
  loaded-append [] s = append-nil _
  loaded-append (x ∷ ss) s = rw (loaded-append ss s) (
      sym
        (append_assoc (entry x.name (store_of features loaders x)) (loaded features loaders ss) _))

  with_default-append :
      (m : Entries) (x : Text × SecretStore)
      → with_default features loaders (m ++ x ∷ []) ≡ m ++ x ∷ []
  unfolding with_default
  with_default-append [] x = refl
  with_default-append (y ∷ m) x = refl

module _ (features : Features) (loaders : Loaders) (self : Secrets) (ss : List SpicepodSecret)
    (distinct : Distinct ss) (typed : Typed features loaders ss) where
  load_from-loaded : load_from features loaders self ss ≡ (
    ok tt,
    record { stores = reverse (with_default features loaders (loaded features loaders ss)) },
  )
  unfolding load_from load_loop
  load_from-loaded =
      ap (finish_load features loaders) (
        rw append-nil at (load_loop-loaded features loaders ss [] [] (Fresh-nil ss) distinct typed))

  -- Where secrets of different names and of known types come first, and then one whose type of
  -- store is unknown, `load_from` gives that error, and leaves connected exactly the stores that
  -- it could load up to there, in the order of the secrets and with no default.
  pub load_from-unknown :
      (s : SpicepodSecret) (rest : List SpicepodSecret) (e : Error)
      → spicepod_secret_store_type features s ≡ err e
      → load_from features loaders self (ss ++ (s ∷ rest))
        ≡ (err e, record { stores = loaded features loaders ss })
  unfolding load_from
  load_from-unknown s rest e h =
      ap (finish_load features loaders) (load_loop-err features loaders ss s rest distinct typed h)

  -- For secrets of different names and of known types, of which the last can be loaded: a key is
  -- looked for in the last one first. A secret or an error from it is the answer; if it has none,
  -- the answer is that of the stores before it, the later first.
  pub get_secret-last :
      (before : List SpicepodSecret) (s : SpicepodSecret) (store : SecretStore) (key : Text)
      → ss ≡ before ++ s ∷ []
      → store_of features loaders s ≡ ok store
      → get_secret (load_from features loaders self ss).1 key
        ≡ elim (store key) as (λ _. Result Text (Option Text)) [
          | ok (some secret) ↦ ok (some secret)
          | ok none ↦ first_secret (reverse (loaded features loaders before)) key
          | err e ↦ err e
        ]
  unfolding get_secret
  get_secret-last before s store key e h =
      rw
        (
          load_from-loaded,
          e,
          loaded-append features loaders before s,
          h,
          with_default-append,
          reverse-append,
        )
        refl
