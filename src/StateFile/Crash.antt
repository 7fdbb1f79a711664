-- ===== src/StateFile/Crash.antt =====
-- A save that stops at any point.
use lixun.Common.{
  List, ◌∷◌, ◌++◌, ◌≡◌, ◌⊎◌, inl, inr, refl, arith, ap, ◌≢◌, ◌∙◌, length, length-append, some,
}
use lixun.Common.Text.{Text, text_eq_iff, codes}
use lixun.StateFile.{
  FileState, content, missing, Disk, update, Call, write, rename, exec, exec_all, join, save_calls,
  Json, load, save, parse_or,
}

-- `Stops cs d d'`: the calls `cs` on `d` stop after some of them, by an error or a crash, and leave
-- `d'`. A write that stops half-way leaves anything at its path.
pub data Stops : List Call → Disk → Disk → Type 0 where
  here : {cs : List Call} {d : Disk} → Stops cs d d
  torn :
      {p s : Text} {cs : List Call} {d : Disk} (junk : FileState)
      → Stops (write p s ∷ cs) d (update d p junk)
  next : {c : Call} {cs : List Call} {d d' : Disk} → Stops cs (exec c d) d' → Stops (c ∷ cs) d d'

update_self : (d : Disk) (p : Text) (f : FileState) → update d p f p ≡ f
unfolding update
update_self d p f = ground (arith, text_eq_iff p p)

update_ne : (d : Disk) (p q : Text) (f : FileState) → p ≢ q → update d p f q ≡ d q
unfolding update
update_ne d p q f ne = ground (arith, text_eq_iff p q)

-- The temporary file is another file than the store's.
tmp-ne : (dir name : Text) → join dir (name ++ codes ".tmp") ≢ join dir name
unfolding join
tmp-ne dir name e =
    let same : (dir ++ codes "/") ++ (name ++ codes ".tmp") ≡ (dir ++ codes "/") ++ name = e in
    omega (
      arith,
      ap length same,
      length-append (dir ++ codes "/") (name ++ codes ".tmp"),
      length-append (dir ++ codes "/") name,
      length-append name (codes ".tmp"),
    )

exec-rename : (d : Disk) (p q : Text) → p ≢ q → exec (rename p q) d q ≡ d p
unfolding exec
exec-rename d p q ne = update_ne (update d q (d p)) p q missing ne ∙ update_self d q (d p)

module _ (dir name s : Text) (d : Disk) where
  -- All the calls together put the content into the store's file.
  exec_all-save_calls : exec_all (save_calls dir name s) d (join dir name) ≡ content s
  unfolding save_calls exec exec_all
  exec_all-save_calls =
      exec-rename (update d (join dir (name ++ codes ".tmp")) (content s)) _ _ (tmp-ne dir name)
      ∙ update_self d (join dir (name ++ codes ".tmp")) (content s)

  -- After any part of the calls the store's file holds what it held, or all of the new content.
  Stops-save_calls :
      {d' : Disk}
      → Stops (save_calls dir name s) d d'
      → (d' (join dir name) ≡ d (join dir name)) ⊎ (d' (join dir name) ≡ content s)
  unfolding save_calls exec exec_all
  Stops-save_calls here = inl refl
  Stops-save_calls (next here) = inl refl
  Stops-save_calls (next (torn junk)) = inl (update_ne d _ _ junk (tmp-ne dir name))
  Stops-save_calls (next (next here)) = inl (update_ne d _ _ (content s) (tmp-ne dir name))
  Stops-save_calls (next (next (next here))) = inr exec_all-save_calls

module _ {S : Type 0} (json : Json S) (empty x : S) (dir name : Text) (d : Disk) where
  -- A store that was saved is loaded as it was, if the JSON library reads what it wrote.
  load-save :
      json.from_json (json.to_json x) ≡ some x
      → load json empty name dir (exec_all (save json name x dir) d) ≡ x
  unfolding load save parse_or
  load-save h = rw (exec_all-save_calls dir name (json.to_json x) d, parse_or) (rw (h, parse_or))

  -- A save that stops at any point leaves a disk from which the old store or the new one is loaded.
  pub load-Stops :
      {d' : Disk}
      → json.from_json (json.to_json x) ≡ some x
      → Stops (save json name x dir) d d'
      → (load json empty name dir d' ≡ load json empty name dir d)
        ⊎ (load json empty name dir d' ≡ x)
  unfolding load save parse_or
  load-Stops h st = elim (Stops-save_calls dir name (json.to_json x) d st) [
    | inl e ↦ inl (rw e)
    | inr e ↦ inr (rw e (rw (h, parse_or)))
  ]
