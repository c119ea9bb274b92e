-- ===== src/Agent/Files/Genuine.antt =====
-- internal/agent/service.go: whose data the file operations return.
use mathlib.Core.List.Memᴰ
use mathlib.Core.List.{Memᴰ}
use sroiaaa.Base.{
  ℕ, zero, suc, Option, none, some, List, [], ◌∷◌, ◌++◌, ◌≡◌, refl, ap, ◌∙◌, ltb, if◌then◌else◌,
  if-cases, ok, length, take, drop, take-drop, All, append_assoc,
}
use sroiaaa.Base.Text.{Text}
use sroiaaa.Agent.Types.{FileInfo, DirEntry, OpenFile, Host, Content, EntryRecord}
use sroiaaa.Agent.Files.{join_path, entry_record, list_records, link_target, encode_content}

-- What the record of a path says of it: its target is read of that path if it is a link.
abbrev pub LinksTo : Host → EntryRecord → Type 0
LinksTo os entry = (entry.symlink_target ≡ link_target os entry.path entry.info.kind)

-- The record is what Lstat says of its path.
pub record IsStat (os : Host) (entry : EntryRecord) : Type 0 where
  pub info : os.lstat entry.path ≡ ok entry.info
  pub target : LinksTo os entry

-- The record is of an entry that the directory holds.
pub record IsEntryOf (os : Host) (dir : Text) (found : List DirEntry) (item : Text × EntryRecord)
    : Type 0 where
  pub entry : DirEntry
  pub held : Memᴰ entry found
  pub name : item.0 ≡ entry.name
  pub path : item.1.path ≡ join_path dir entry.name
  pub info : entry.info ≡ some item.1.info
  pub target : LinksTo os item.1

-- The records are of entries of the directory.
pub record IsListing (os : Host) (dir : Text) (items : List (Text × EntryRecord)) : Type 0 where
  pub found : List DirEntry
  pub listed : os.read_dir dir ≡ ok found
  pub each : All (IsEntryOf os dir found) items

-- The content is bytes of the file at the path, from an offset on.
pub record IsPart (os : Host) (path : Text) (offset n : ℕ) (content : Content) : Type 0 where
  pub file : OpenFile
  pub bytes : List ℕ
  pub got : List ℕ
  pub rest : List ℕ
  pub opened : os.open_file path ≡ ok file
  pub held : file.bytes ≡ some bytes
  pub part : drop offset bytes ≡ got ++ rest
  pub size : n ≡ length got
  pub written : content ≡ encode_content os got

pub Memᴰ-take : {A : Type 0} (n : ℕ) (xs : List A) (x : A) → Memᴰ x (take n xs) → Memᴰ x xs
Memᴰ-take zero xs x h = absurd (Memᴰ.not-nil h)
Memᴰ-take (suc n) [] x h = h
Memᴰ-take (suc n) (y ∷ xs) x (Memᴰ.head e) = Memᴰ.head e
Memᴰ-take (suc n) (y ∷ xs) x (Memᴰ.tail t) = Memᴰ.tail (Memᴰ-take n xs x t)

pub list_records-IsEntryOf :
    (os : Host) (dir : Text) (found entries : List DirEntry)
    → ((entry : DirEntry) → Memᴰ entry entries → Memᴰ entry found)
    → All (IsEntryOf os dir found) (list_records os dir entries)
unfolding list_records entry_record
list_records-IsEntryOf os dir found [] h = tt
list_records-IsEntryOf os dir found (entry ∷ entries) h =
    go entry.info refl (list_records-IsEntryOf os dir found entries (λ e m. h e (Memᴰ.tail m)))
  where
    go :
        (o : Option FileInfo)
        → entry.info ≡ o
        → All (IsEntryOf os dir found) (list_records os dir entries)
        → All (IsEntryOf os dir found) (elim o [
          | some info ↦
              (entry.name, entry_record os (join_path dir entry.name) info)
              ∷ list_records os dir entries
          | none ↦ list_records os dir entries
        ])
    go none e later = later
    go (some info) e later = (
      record {
        entry = entry;
        held = h entry (Memᴰ.head refl);
        name = refl;
        path = refl;
        info = e;
        target = refl;
      },
      later,
    )

-- What is left of a read after the byte too many is cut off.
pub cut_part :
    (most : ℕ) (found xs rest : List ℕ)
    → found ≡ xs ++ rest
    → (after : List ℕ) × (found ≡ (if ltb most (length xs) then take most xs else xs) ++ after)
cut_part most found xs rest e =
    if-cases (λ kept. (after : List ℕ) × (found ≡ kept ++ after)) (ltb most (length xs))
      (λ _. (
        drop most xs ++ rest,
        e
            ∙ ap (λ l. l ++ rest) (take-drop most xs)
            ∙ append_assoc (take most xs) (drop most xs) rest,
      ))
      (λ _. (rest, e))
