-- ===== src/Link.antt =====
-- cores/link.go: `ShortLink` and its status.
use vshortlink.Prelude.{ℕ, Bool, ◌==◌, Text}

-- An instant, in nanoseconds from Go's zero time: `IsZero` is the test for 0.
abbrev pub Time : Type 0
Time = ℕ

-- `LinkStatus` is an `int`; the constants are 1, 2 and 3.
abbrev pub LinkStatus : Type 0
LinkStatus = ℕ

abbrev pub link_status_active : LinkStatus
link_status_active = 1

abbrev pub link_status_expired : LinkStatus
link_status_expired = 2

abbrev pub link_status_recycled : LinkStatus
link_status_recycled = 3

pub record ShortLink : Type 0 where
  pub id : ℕ
  pub length : ℕ
  pub code : Text
  pub title : Text
  pub link : Text
  pub expire : Time
  pub status : LinkStatus
  pub create_time : Time
  pub modify_time : Time

abbrev pub is_active : ShortLink → Bool
is_active l = l.status == link_status_active

abbrev pub is_expired : ShortLink → Bool
is_expired l = l.status == link_status_expired

abbrev pub is_recycle : ShortLink → Bool
is_recycle l = l.status == link_status_recycled
