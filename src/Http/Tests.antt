-- ===== src/Http/Tests.antt =====
-- The end of a request head of src/server/q3_server.c on small requests.
use sera_c.Http.{header_end, find_mark}
use sera_c.Http.Head.{IsHeadEnd, header_end-IsHeadEnd}
use sera_c.Common.{some, codes, ◌++◌, ◌∷◌, [], ◌≡◌, refl, Bytes}

-- A head that ends in "\n\n", with "\r\n\r\n" in its body: the body's is taken.
abbrev two_ends : Bytes
two_ends = codes "GET" ++ (10 ∷ 10 ∷ 88 ∷ 13 ∷ 10 ∷ 13 ∷ 10 ∷ [])

two_ends-header_end : header_end two_ends ≡ some 10
unfolding header_end find_mark
two_ends-header_end = refl

header_end-IsHeadEnd_example : IsHeadEnd two_ends (header_end two_ends)
header_end-IsHeadEnd_example = header_end-IsHeadEnd two_ends
