-- ===== src/Antispam/Headers.antt =====
-- serverwall-antispam/src/headers.rs, and the texts of an authentication result of result.rs: the
-- headers of a suspect message. `show_score` is the format `{:.1}` of an `f64`.
use serverwall.Base.{List, [], ◌∷◌, ◌++◌, Text, codes, join, map}
use serverwall.Antispam.Score.{
  SpamVerdict, AuthResult, AuthenticationResults, ScoreContribution, SpamReport,
}

unfoldable pub auth_text : AuthResult → Text
auth_text AuthResult.pass = codes "pass"
auth_text AuthResult.fail = codes "fail"
auth_text AuthResult.soft_fail = codes "softfail"
auth_text AuthResult.neutral = codes "neutral"
auth_text AuthResult.absent = codes "none"
auth_text AuthResult.temp_error = codes "temperror"
auth_text AuthResult.perm_error = codes "permerror"

-- The value of `Authentication-Results`.
unfoldable pub auth_value : Text → AuthenticationResults → Text
unfolding auth_text
auth_value authserv_id auth =
    authserv_id
    ++ (codes "; spf="
        ++ (auth_text auth.spf
            ++ (codes " ; dkim="
                ++ (auth_text auth.dkim
                    ++ (codes " ; dmarc="
                        ++ (auth_text auth.dmarc ++ (codes " ; arc=" ++ auth_text auth.arc)))))))

spam_flag : SpamVerdict → Text
spam_flag SpamVerdict.spam = codes "YES"
spam_flag _ = codes "NO"

status_word : SpamVerdict → Text
status_word SpamVerdict.clean = codes "No"
status_word SpamVerdict.suspect = codes "Maybe"
status_word SpamVerdict.spam = codes "Yes"

module _ {F : Type 0} (show_score : F → Text) where
  test_text : ScoreContribution F → Text
  test_text c = c.check_name ++ (codes "=" ++ show_score c.score)

  report_line : ScoreContribution F → Text
  report_line c =
      codes "* "
      ++ (show_score c.score ++ (codes " " ++ (c.check_name ++ (codes " -- " ++ c.description))))

  tests_text : List Text → Text
  tests_text [] = codes "none"
  tests_text (t ∷ ts) = join (codes ",") (t ∷ ts)

  report_header : List (ScoreContribution F) → List (Text × Text)
  unfolding report_line
  report_header [] = []
  report_header (c ∷ cs) =
      (codes "X-Spam-Report", join (codes "\r\n\t") (map report_line (c ∷ cs))) ∷ []

  unfoldable pub build_headers : SpamReport F → Text → List (Text × Text)
  unfolding auth_value spam_flag status_word test_text tests_text report_header
  build_headers report authserv_id =
      (codes "X-Spam-Score", show_score report.score)
      ∷ (codes "X-Spam-Flag", spam_flag report.verdict)
      ∷ (
        codes "X-Spam-Status",
        status_word report.verdict
            ++ (codes ", score="
                ++ (show_score report.score
                    ++ (codes " tests=["
                        ++ (tests_text (map test_text report.contributions) ++ codes "]")))),
      )
      ∷ (report_header report.contributions
          ++ ((codes "Authentication-Results", auth_value authserv_id report.auth_results) ∷ []))
