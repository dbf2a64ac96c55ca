-- ===== src/Antispam/Score.antt =====
-- serverwall-antispam/src/score.rs and result.rs. The type `f64` is a parameter with the operations
-- that the code uses; nothing is assumed of them.
use serverwall.Base.{ℕ, Bool, List, if◌then◌else◌, Text}

pub record FloatOps (F : Type 0) : Type 0 where
  pub of_ℕ : ℕ → F
  pub add : F → F → F
  pub mul : F → F → F
  pub div : F → F → F
  pub lt : F → F → Bool
  pub le : F → F → Bool

pub data SpamVerdict : Type 0 where
  clean suspect spam : SpamVerdict

pub data CheckCategory : Type 0 where
  authentication reputation content header rate_limit behavioral : CheckCategory

pub record ScoreContribution (F : Type 0) : Type 0 where
  pub check_name : Text
  pub category : CheckCategory
  pub score : F
  pub description : Text

pub data CheckOutcome (F : Type 0) : Type 0 where
  pass : CheckOutcome F
  hit : F → Text → CheckOutcome F
  reject : Text → CheckOutcome F
  temp_fail : Text → CheckOutcome F
  skip : Text → CheckOutcome F

pub data AuthResult : Type 0 where
  pass fail soft_fail neutral absent temp_error perm_error : AuthResult

pub record AuthenticationResults : Type 0 where
  pub spf : AuthResult
  pub dkim : AuthResult
  pub dmarc : AuthResult
  pub arc : AuthResult

abbrev pub default_auth : AuthenticationResults
default_auth = record { spf = absent; dkim = absent; dmarc = absent; arc = absent }

pub record SpamReport (F : Type 0) : Type 0 where
  pub score : F
  pub verdict : SpamVerdict
  pub contributions : List (ScoreContribution F)
  pub auth_results : AuthenticationResults

-- `SpamScore` is its number.
module _ {F : Type 0} (f : FloatOps F) where
  unfoldable pub new_score : F
  new_score = f.of_ℕ 0

  unfoldable pub add_score : F → F → F → F
  add_score score weight severity = f.add score (f.mul weight severity)

  -- `f64::clamp`.
  clamp : F → F → F → F
  clamp x lo hi = let y = if f.lt x lo then lo else x in if f.lt hi y then hi else y

  unfoldable pub percentage : F → F → F
  unfolding clamp
  percentage score max_score =
      if f.le max_score (f.of_ℕ 0)
      then f.of_ℕ 0
      else f.mul (f.div (clamp score (f.of_ℕ 0) max_score) max_score) (f.of_ℕ 100)

  unfoldable pub verdict : F → F → F → F → SpamVerdict
  unfolding percentage
  verdict score max_score suspect_threshold spam_threshold =
      let pct = percentage score max_score in
      if f.le spam_threshold pct
      then spam
      else if f.le suspect_threshold pct
      then suspect
      else clean
