-- ===== src/Wal/Pages.antt =====
-- src/core/wal.rs: `checkpoint` hands the pager the last page data of each page, and on an error
-- of the pager leaves the log's file as it was.
use jasonisnthappy.Base.{
  ℕ, ◌≡◌, refl, inl, inr, Option, none, some, List, [], ◌∷◌, arith, ◌==◌, if◌then◌else◌, All,
  Bool-cases,
}
use jasonisnthappy.Base.Map
use jasonisnthappy.Base.Map.{Map, get-insert}
use jasonisnthappy.Wal.Frame.{WalHeader, WalFrame}
use jasonisnthappy.Wal.Log.{is_valid_frame}
use jasonisnthappy.Wal.Logged.{IsLogFrame-is_valid_frame, IsLogFrame}
use jasonisnthappy.Wal.Checkpoint.{validate, collect}

-- The data of the last frame of a page, if it has one.
unfoldable pub last_of : ℕ → List WalFrame → Option (List ℕ)
last_of page [] = none
last_of page (f ∷ fs) = elim (last_of page fs) [
  | some bytes ↦ some bytes
  | none ↦ if f.page_num == page then some f.page_data else none
]

abbrev or_else : Option (List ℕ) → Option (List ℕ) → Option (List ℕ)
or_else (some a) o = some a
or_else none o = o

collect-last_of :
    (pages : Map (List ℕ)) (fs : List WalFrame) (page : ℕ)
    → Map.get (collect pages fs) page
      ≡ (if page == 0 then Map.get pages page else or_else (last_of page fs) (Map.get pages page))
unfolding collect last_of
collect-last_of pages [] page = ground arith
collect-last_of pages (f ∷ fs) page = elim (Bool-cases (f.page_num == 0)) [
  | inl meta ↦ simp meta (ground (arith, collect-last_of pages fs page))
  | inr other ↦ simp other (
      ground (
        arith,
        collect-last_of (Map.insert pages f.page_num f.page_data) fs page,
        get-insert pages f.page_num f.page_data page,
      ))
]

-- Of the frames that are valid, the pages handed to the pager are the last data of each page
-- other than page 0, and nothing for page 0.
pub get-collect :
    (fs : List WalFrame) (page : ℕ)
    → Map.get (collect [] fs) page ≡ (if page == 0 then none else last_of page fs)
get-collect fs page = unfold Map.get in ground (arith, collect-last_of [] fs page)

pub validate-All : (h : WalHeader) (fs : List WalFrame) → All (IsLogFrame h) fs → validate fs ≡ fs
unfolding validate is_valid_frame
validate-All h [] a = refl
validate-All h (f ∷ fs) (v, vs) =
    ground (arith, IsLogFrame-is_valid_frame h f v, validate-All h fs vs)
