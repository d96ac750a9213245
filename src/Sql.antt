-- ===== src/Sql.antt =====
-- ext/gormx: the rows of the two tables, their conversions, and the calls of GORM that the repository
-- makes, as the operations of a parameter.
pub mod Repo
pub mod Table
pub mod Updates
pub mod Paging
pub mod Due
pub mod Lookup
pub mod Agrees
pub mod Manual
pub mod Counts
pub mod Uses
pub mod Saved
pub mod Quiet
pub mod Owned
pub mod Issues
pub mod Taken
pub mod Unique
pub mod Pooled
pub mod Starts
pub mod Cycle
pub mod Expire
pub mod Recycle
use vshortlink.Prelude.{ℕ, Bool, Option, List, Text, Exec}
use vshortlink.Prelude.Int.{ℤ}
use vshortlink.Link.{Time, LinkStatus, ShortLink}

pub record ShortLinkModel : Type 0 where
  pub id : ℕ
  pub length : ℕ
  pub code : Text
  pub link : Text
  pub title : Text
  pub expire : Time
  pub status : LinkStatus
  pub create_time : Time
  pub modify_time : Time

pub record StartIndexModel : Type 0 where
  pub id : ℕ
  pub start_index : ℤ
  pub create_time : Time
  pub modify_time : Time

abbrev pub to_core : ShortLinkModel → ShortLink
to_core m = record {
  id = m.id;
  length = m.length;
  code = m.code;
  title = m.title;
  link = m.link;
  expire = m.expire;
  status = m.status;
  create_time = m.create_time;
  modify_time = m.modify_time;
}

abbrev pub from_core : ShortLink → ShortLinkModel
from_core link = record {
  id = link.id;
  length = link.length;
  code = link.code;
  link = link.link;
  title = link.title;
  expire = link.expire;
  status = link.status;
  create_time = link.create_time;
  modify_time = link.modify_time;
}

-- The conditions that the repository passes to `Where`.
pub data Condition : Type 0 where
  code_is : Text → Condition
  length_is : ℤ → Condition
  id_above : ℤ → Condition
  status_is : LinkStatus → Condition
  status_in : List LinkStatus → Condition
  expire_before : Time → Condition

-- A chain of `Where`, `Order("id ASC")` or `Order("id DESC")`, and perhaps `Limit`.
pub record Query : Type 0 where
  pub conditions : List Condition
  pub ascending : Bool
  pub limit : Option ℕ

-- `create` returns the row with its id. `first` gives none for `ErrRecordNotFound`. `tx_save`,
-- `rollback` and `commit` act on the transaction that `begin` opens.
pub record Gorm (D : Type 0) : Type 0 where
  pub create : ShortLinkModel → Exec D ShortLinkModel
  pub save : ShortLinkModel → Exec D (Unit {0})
  pub begin : Exec D (Unit {0})
  pub tx_save : ShortLinkModel → Exec D (Unit {0})
  pub rollback : D → D
  pub commit : Exec D (Unit {0})
  pub delete : ℕ → Exec D (Unit {0})
  pub delete_where : Condition → Exec D (Unit {0})
  pub find : Query → Exec D (List ShortLinkModel)
  pub first : ℕ → Exec D (Option ShortLinkModel)
  pub find_index : ℕ → Exec D (List StartIndexModel)
  pub upsert_index : StartIndexModel → Exec D (Unit {0})
