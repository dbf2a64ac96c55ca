-- ===== src/Antispam/Behavior/Helo.antt =====
-- serverwall-antispam/src/predata/helo.rs: which names pass.
use serverwall.Base.{
  ◌≡◌, refl, ◌∙◌, Option, none, some, Bool, true, false, ◌&&◌, not, if◌then◌else◌, is_empty, any,
  List, Text, codes, text_eq, trim, contains, to_lowercase,
}
use serverwall.Core.Types.{IpAddr}
use serverwall.Antispam.Score.{FloatOps, CheckOutcome}
use serverwall.Antispam.Pipeline.{EnvelopeContext}
use serverwall.Antispam.Behavior.{
  Answer, hit_with, helo_hit, is_ip_literal, ptr_names, check_ptr, judge_helo, check_helo,
}

abbrev pub is_pass : {F : Type 0} → CheckOutcome F → Bool
is_pass CheckOutcome.pass = true
is_pass _ = false

four_tests :
    {F : Type 0} (a b c d : Bool) (w x y z r : Answer F)
    → is_pass w.0 ≡ false
    → is_pass x.0 ≡ false
    → is_pass y.0 ≡ false
    → is_pass z.0 ≡ false
    → is_pass (if a then w else if b then x else if not c then y else if not d then z else r).0
      ≡ (not a && (not b && (c && (d && is_pass r.0))))
four_tests true b c d w x y z r i j k l = i
four_tests false true c d w x y z r i j k l = j
four_tests false false false d w x y z r i j k l = k
four_tests false false true false w x y z r i j k l = l
four_tests false false true true w x y z r i j k l = refl

-- The reverse lookup fails, or one of the names that it gives is this one.
abbrev pub is_known : Text → Option (List Text) → Bool
is_known helo none = true
is_known helo (some names) = any (λ p. text_eq p (to_lowercase helo)) (ptr_names names)

pass_if :
    {F : Type 0} (b : Bool) (x : Answer F)
    → is_pass x.0 ≡ false
    → is_pass (if b then (CheckOutcome.pass, none) else x).0 ≡ b
pass_if true x h = refl
pass_if false x h = h

module _ {F : Type 0} (f : FloatOps F) (parse_ip : Text → Option IpAddr) (is_hostname : Text → Bool)
    (reverse_lookup : IpAddr → Option (List Text)) where
  check_ptr-known :
      (weight : F) (helo : Text) (names : Option (List Text))
      → is_pass (check_ptr f parse_ip is_hostname reverse_lookup weight helo names).0
        ≡ is_known helo names
  unfolding check_ptr helo_hit hit_with
  check_ptr-known weight helo none = refl
  check_ptr-known weight helo (some names) = pass_if (is_known helo (some names)) _ refl

  -- A client's name passes exactly if, trimmed, it is not empty, no address, a hostname by the pattern,
  -- has a dot, and is among the names of the client's address, if the reverse lookup gives any.
  pub check_helo-is_pass :
      (weight : F) (ctx : EnvelopeContext)
      → let helo = trim ctx.helo_domain in
        is_pass (check_helo f parse_ip is_hostname reverse_lookup weight ctx).0 ≡ (
          not (is_empty helo)
          && (not (is_ip_literal parse_ip helo)
              && (is_hostname helo
                  && (contains (codes ".") helo && is_known helo (reverse_lookup ctx.client_ip)))))
  unfolding check_helo judge_helo helo_hit hit_with
  check_helo-is_pass weight ctx =
      let helo = trim ctx.helo_domain in
      four_tests (is_empty helo) (is_ip_literal parse_ip helo) (is_hostname helo)
        (contains (codes ".") helo) _ _ _ _
        (check_ptr f parse_ip is_hostname reverse_lookup weight helo (reverse_lookup ctx.client_ip))
        refl refl refl refl
      ∙ rw (check_ptr-known weight helo (reverse_lookup ctx.client_ip))
