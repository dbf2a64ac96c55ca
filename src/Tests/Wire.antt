-- ===== src/Tests/Wire.antt =====
-- Messages on the way to the backend.
use serverwall.Base.{◌≡◌, refl, List, [], ◌∷◌, ◌++◌, Text, codes, All, starts_with}
use serverwall.Proxy.Smtp.{read_data}
use serverwall.Proxy.Smtp.Transfer.{
  joined, transfer, split_lines, IsPlain, transfer-plain, transfer-dots,
}

abbrev headers : List Text
headers = codes "A:b\n" ∷ []

abbrev lines : List Text
lines = codes "x\n" ∷ codes "\n" ∷ []

-- What follows the two dots.
abbrev after : List Text
after = codes "MAIL FROM:<a@b>\r\n" ∷ codes "DATA\r\n" ∷ codes ".\r\n" ∷ []

headers-IsPlain : All IsPlain headers
unfolding starts_with
headers-IsPlain = (((refl, (refl, (refl, refl))), refl), tt)

lines-IsPlain : All IsPlain lines
unfolding starts_with
lines-IsPlain = (((refl, refl), refl), ((refl, refl), tt))

transfer-plain_example :
    let read =
      read_data (split_lines (transfer headers (read_data (lines ++ (codes ".\r\n" ∷ []))).0)) in
    (read.0 ≡ joined headers ++ (joined lines ++ codes "\r\n")) × (read.1 ≡ [])
transfer-plain_example = transfer-plain headers lines headers-IsPlain lines-IsPlain

transfer-dots_example :
    let read =
      read_data
        (split_lines (transfer headers (read_data (lines ++ (codes "..\r\n" ∷ after))).0)) in
    (read.0 ≡ joined headers ++ joined lines)
    × (read.1 ≡ split_lines ((read_data after).0 ++ codes "\r\n.\r\n"))
transfer-dots_example = transfer-dots headers lines after headers-IsPlain lines-IsPlain
