-- ===== src/Models/Users.antt =====
-- models/user.py.
use chatfolio_backend.Prelude.{ℕ, Bool, Option, String}

pub data UserRole : Type 0 where
  candidate admin : UserRole

pub data TwoFactorMethod : Type 0 where
  email phone both : TwoFactorMethod

pub data OtpPurpose : Type 0 where
  two_factor_enroll two_factor_login : OtpPurpose

pub record User : Type 0 where
  pub id : ℕ
  pub email : String
  pub hashed_password : String
  pub role : UserRole
  pub is_active : Bool
  pub phone : Option String
  pub two_factor_enabled : Bool
  pub two_factor_method : Option TwoFactorMethod
