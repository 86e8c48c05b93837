-- ===== src/Model.antt =====
-- The documents of mind-palace/model/model.go, and the names of their kinds from
-- mind-palace/kind/kind.go.
pub mod Linking
pub mod Ids
pub mod Slugs
pub mod FileNames
use clued.Base.{ℕ, Bool, ◌||◌, Option, List, Str, bytes, str_eq, trim_space}

pub record Link : Type 0 where
  pub id : Str
  pub relation : Str
  pub sections : List Str

pub record Repo : Type 0 where
  pub remote : Str
  pub local : Str
  pub pull_request : Str
  pub files : List Str

pub record Links : Type 0 where
  pub repo : Option Repo
  pub specs : List Str
  pub web : List (Str × Str)
  pub stories : List Link
  pub plans : List Link

pub record ProgressEntry : Type 0 where
  pub status : Str
  pub stories : List Str

-- A Go `int`: `pos n` is n, `negsuc n` is -(n + 1).
pub data ℤ : Type 0 where
  pos negsuc : ℕ → ℤ

pub record FrontMatter : Type 0 where
  pub id : Str
  pub title : Str
  pub purpose : Str
  pub type : Str
  pub status : Str
  pub priority : Str
  pub effort : Str
  pub created : Str
  pub updated : Str
  pub started : Str
  pub completed : Str
  pub tags : List Str
  pub milestone : Str
  pub due_date : Str
  pub planned_start : Str
  pub planned_end : Str
  pub order : ℤ
  pub assignee : Str
  pub links : Option Links
  pub progress : List (Str × ProgressEntry)

pub record Document : Type 0 where
  pub kind : Str
  pub path : Str
  pub front_matter : FrontMatter
  pub content : Str

-- The document's `ID()`.
abbrev pub id_of : Document → Str
id_of d = d.front_matter.id

abbrev pub updated_of : Document → Str
updated_of d = d.front_matter.updated

abbrev pub plan : Str
plan = bytes "plan"

abbrev pub story : Str
story = bytes "story"

-- Whether `kind.Get` finds a kind of this name or plural; `lower` is `strings.ToLower`.
unfoldable pub is_kind : (Str → Str) → Str → Bool
is_kind lower name =
    let n = lower (trim_space name) in
    str_eq n plan || str_eq n story || str_eq n (bytes "plans") || str_eq n (bytes "stories")
