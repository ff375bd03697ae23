-- ===== src/Io/RestThen.antt =====
-- http.rs: `RestThen`, a reader that gives the bytes left over from the headers before it reads on.
pub mod Delivers
use libagent.Base.{ℕ, ◌+◌, min, ltb, if◌then◌else◌, length, take, drop}
use libagent.Text.{Bytes}
use libagent.Io.{Reader, Read, got, fault}

pub record RestThen (S : Type 0) : Type 0 where
  pub rest : Bytes
  pub pos : ℕ
  pub inner : S

module _ {S : Type 0} where
  unfoldable pub new : Bytes → S → RestThen S
  new rest inner = record { rest = rest; pos = 0; inner = inner }

  -- The inner reader's result, with the state put back.
  abbrev resume : RestThen S → Read S → Read (RestThen S)
  resume r (got bs s) = got bs (record r { inner = s })
  resume r (fault f s) = fault f (record r { inner = s })

  unfoldable pub read : Reader S → Reader (RestThen S)
  read inner_read n r =
      let remaining = drop r.pos r.rest in
      let k = min n (length remaining) in
      if ltb r.pos (length r.rest)
      then got (take k remaining) (record r { pos = r.pos + k })
      else resume r (inner_read n r.inner)
