-- ===== src/Std/Disk.antt =====
-- `std::fs`: files by path, and the faults that the operating system may report.
use lp_0008_logos_agent_modu.Base.{
  ℕ, ◌≡◌, refl, Bool, true, false, Option, none, some, List, [], ◌∷◌, arith, if◌then◌else◌, Result,
  ok, err, Text, lit, eq_text,
}

pub record Disk : Type 0 where
  pub files : List (Text × List ℕ)
  pub read_fault : Text → Option Text
  pub write_fault : Text → Option Text
  pub torn : Text → List ℕ → Option (List ℕ)
  pub dir_fault : Text → Option Text

abbrev pub lookup : Text → List (Text × List ℕ) → Option (List ℕ)
lookup path [] = none
lookup path ((p, bytes) ∷ files) =
    let rest = lookup path files in if eq_text path p then some bytes else rest

-- `Path::exists`
unfoldable pub exists_file : Text → Disk → Bool
exists_file path disk = elim (lookup path disk.files) [ none ↦ false | some bytes ↦ true ]

-- `fs::read`
unfoldable pub read : Text → Disk → Result (List ℕ) Text
read path disk = elim (disk.read_fault path) [
  | some e ↦ err e
  | none ↦ elim (lookup path disk.files) [
    | none ↦ err (lit "No such file or directory (os error 2)")
    | some bytes ↦ ok bytes
  ]
]

-- `fs::write`, which replaces the file. A write that fails leaves the file as it was, if it could not
-- be opened, or else a part of the new contents.
unfoldable pub write : Text → List ℕ → Disk → Result (Unit {0}) Text × Disk
write path bytes disk = elim (disk.write_fault path) [
  | some e ↦ (
    err e,
    elim (disk.torn path bytes) [
      | none ↦ disk
      | some part ↦ record disk { files = (path, part) ∷ disk.files }
    ],
  )
  | none ↦ (ok tt, record disk { files = (path, bytes) ∷ disk.files })
]

pub eq_text_refl : (s : Text) → eq_text s s ≡ true
eq_text_refl [] = refl
eq_text_refl (c ∷ s) = ground (arith, eq_text_refl s)

-- A file that was written is read back, if it can be read.
pub read-write :
    (path : Text) (bytes : List ℕ) (disk : Disk)
    → disk.read_fault path ≡ none
    → disk.write_fault path ≡ none
    → (write path bytes disk ≡ (ok tt, (write path bytes disk).1))
      × (read path (write path bytes disk).1 ≡ ok bytes)
      × (exists_file path (write path bytes disk).1 ≡ true)
unfolding read write exists_file
read-write path bytes disk h k =
    (ground arith, ground (arith, eq_text_refl path), ground (arith, eq_text_refl path))

pub write-ok :
    (path : Text) (bytes : List ℕ) (disk : Disk)
    → (write path bytes disk).0 ≡ ok tt
    → disk.write_fault path ≡ none
unfolding write
write-ok path bytes disk h = ground arith

-- `fs::create_dir_all`; directories are not recorded.
abbrev pub create_dir_all : Text → Disk → Result (Unit {0}) Text
create_dir_all dir disk = elim (disk.dir_fault dir) [ some e ↦ err e | none ↦ ok tt ]

-- A file that can be read exists.
pub exists-read :
    (path : Text) (disk : Disk) {bytes : List ℕ}
    → read path disk ≡ ok bytes
    → exists_file path disk ≡ true
unfolding read exists_file
exists-read path disk h = ground arith
