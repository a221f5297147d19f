-- ===== src/Core/Errors.antt =====
-- src/twin/core/errors.py. A slug is a constructor, so the `ValueError` of an unknown slug has no
-- counterpart; the prose of `detail` is left out.
use Prim.Native.String.{String}
use fakery.Prelude.{ℕ}

pub data Slug : Type 0 where
  validation_failed unauthorized forbidden not_found conflict rate_limited upstream_unavailable
        internal :
      Slug

pub record TwinError : Type 0 where
  pub slug : Slug
  pub title : String
  pub status : ℕ

abbrev pub catalog : Slug → String × ℕ
catalog validation_failed = ("Request failed validation", 422)
catalog unauthorized = ("Missing or invalid credentials", 401)
catalog forbidden = ("Action not allowed", 403)
catalog not_found = ("Resource not found", 404)
catalog conflict = ("State conflict; read detail", 409)
catalog rate_limited = ("Quota exhausted", 429)
catalog upstream_unavailable = ("Provider unavailable; retry later", 503)
catalog internal = ("Internal error", 500)

unfoldable pub make_error : Slug → TwinError
make_error s =
    let (title, status) = catalog s in record { slug = s; title = title; status = status }

-- What a call may raise: the program's own error, `JoinError` of src/twin/meet/join_flow.py with
-- its code, Python's `ValueError` and `ZeroDivisionError`, the database's refusal of a row that
-- breaks a unique index, and an exception of a library or a service, by the name of its class.
pub data Error : Type 0 where
  twin : TwinError → Error
  join_failed : String → Error
  value_error : Error
  zero_division : Error
  integrity_error : Error
  external : String → Error
