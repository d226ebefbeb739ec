-- ===== src/Store/File/Reload.antt =====
-- A restart: what a new `File` over the disk of an old one answers.
use agent_gpu.Prelude.{
  String, Option, none, some, List, [], ◌∷◌, arith, lookup, insert, remove, lookup-insert,
  lookup-remove, ◌≡◌, refl, eq_iff, inl, inr, ap, ◌∙◌,
}
use agent_gpu.Store.{Result-cases, ApiKey, Result, ok, Error}
use agent_gpu.Store.Memory.{values, found}
use agent_gpu.Store.File.{File, index, new_file, put_api_key, get_api_key, flush}

-- Each key stands under its own id, and under no other entry.
abbrev pub IsIndex : List (String × ApiKey) → Type 0
IsIndex [] = Unit {0}
IsIndex ((i, k) ∷ m) = (i ≡ k.id) × (lookup i m ≡ none) × IsIndex m

pub insert-IsIndex :
    (k : ApiKey) (m : List (String × ApiKey)) → IsIndex m → IsIndex (insert k.id k m)
unfolding insert lookup
insert-IsIndex k [] h = (refl, refl, tt)
insert-IsIndex k ((i, w) ∷ m) h =
    ground (arith, insert-IsIndex k m h.2, lookup-insert k.id i k m, eq_iff i k.id, eq_iff k.id i)

pub remove-IsIndex : (i : String) (m : List (String × ApiKey)) → IsIndex m → IsIndex (remove i m)
unfolding remove lookup
remove-IsIndex i [] h = tt
remove-IsIndex i ((j, w) ∷ m) h = ground (arith, remove-IsIndex i m h.2, lookup-remove i j m)

pub index-IsIndex :
    (ks : List ApiKey) (m : List (String × ApiKey)) → IsIndex m → IsIndex (index ks m)
unfolding index
index-IsIndex [] m h = h
index-IsIndex (k ∷ ks) m h = index-IsIndex ks (insert k.id k m) (insert-IsIndex k m h)

abbrev or_else : Option ApiKey → Option ApiKey → Option ApiKey
or_else none o = o
or_else (some k) _ = some k

lookup-index-values :
    (j : String) (l m : List (String × ApiKey))
    → IsIndex l
    → lookup j (index (values l) m) ≡ or_else (lookup j l) (lookup j m)
unfolding index values lookup
lookup-index-values j [] m h = refl
lookup-index-values j ((i, k) ∷ l) m h =
    lookup-index-values j l (insert k.id k m) h.2
    ∙ ground (arith, lookup-insert k.id j k m, eq_iff i j, eq_iff k.id j)

or_else-none : (o : Option ApiKey) → or_else o none ≡ o
or_else-none none = refl
or_else-none (some k) = refl

lookup-reindex :
    (j : String) (l : List (String × ApiKey))
    → IsIndex l
    → lookup j (index (values l) []) ≡ lookup j l
unfolding lookup
lookup-reindex j l h = lookup-index-values j l [] h ∙ or_else-none (lookup j l)

module _ {Disk : Type 0} (read : Disk → Result (List ApiKey))
    (write : List ApiKey → Disk → Disk × Option Error) where
  -- A file that was opened indexes every key under its id.
  pub new_file-IsIndex : (d : Disk) (f : File Disk) → new_file read write d ≡ ok f → IsIndex f.keys
  unfolding new_file
  new_file-IsIndex d f h = elim (Result-cases (read d)) [
    | inl (ks, e) ↦ ground (arith, index-IsIndex ks [] tt)
    | inr (x, e) ↦ ground arith
  ]

  -- What the store writes can be read back, and what is read back answers every lookup as the
  -- store that wrote it does.
  flush_reload :
      ((ks : List ApiKey) (d : Disk) → (write ks d).1 ≡ none → read (write ks d).0 ≡ ok ks)
      → (f : File Disk) → IsIndex f.keys
      → (flush read write f).1 ≡ none
      → (g : File Disk) × (new_file read write (flush read write f).0.disk ≡ ok g)
        × ((j : String)
            → get_api_key read write j g ≡ get_api_key read write j (flush read write f).0)
  unfolding flush new_file get_api_key
  flush_reload read-write f h e = (
    record { disk = (write (values f.keys) f.disk).0; keys = index (values f.keys) [] },
    rw (read-write (values f.keys) f.disk e, new_file),
    λ j. ap found (lookup-reindex j f.keys h),
  )

  -- When a key was stored without an error, a file that is opened over the disk afterwards answers
  -- every lookup as the store does that wrote it. The encoding must read back what it wrote, and
  -- each key of the store must stand under its own id.
  pub put_api_key-reload :
      ((ks : List ApiKey) (d : Disk) → (write ks d).1 ≡ none → read (write ks d).0 ≡ ok ks)
      → (k : ApiKey) (f : File Disk) → IsIndex f.keys
      → (put_api_key read write k f).1 ≡ none
      → (g : File Disk) × (new_file read write (put_api_key read write k f).0.disk ≡ ok g)
        × ((j : String)
            → get_api_key read write j g ≡ get_api_key read write j (put_api_key read write k f).0)
  unfolding put_api_key
  put_api_key-reload read-write k f h e =
      flush_reload read-write (record f { keys = insert k.id k f.keys }) (insert-IsIndex k f.keys h)
        e
