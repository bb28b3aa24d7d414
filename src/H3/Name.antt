-- ===== src/H3/Name.antt =====
-- The byte strings that src/aioquic/h3/connection.py compares header names and values with.
use aioquic.Base.{ℕ, List, [], ◌∷◌}

abbrev pub method : List ℕ
method = 58 ∷ 109 ∷ 101 ∷ 116 ∷ 104 ∷ 111 ∷ 100 ∷ []

abbrev pub scheme : List ℕ
scheme = 58 ∷ 115 ∷ 99 ∷ 104 ∷ 101 ∷ 109 ∷ 101 ∷ []

abbrev pub authority : List ℕ
authority = 58 ∷ 97 ∷ 117 ∷ 116 ∷ 104 ∷ 111 ∷ 114 ∷ 105 ∷ 116 ∷ 121 ∷ []

abbrev pub path : List ℕ
path = 58 ∷ 112 ∷ 97 ∷ 116 ∷ 104 ∷ []

abbrev pub protocol : List ℕ
protocol = 58 ∷ 112 ∷ 114 ∷ 111 ∷ 116 ∷ 111 ∷ 99 ∷ 111 ∷ 108 ∷ []

abbrev pub status : List ℕ
status = 58 ∷ 115 ∷ 116 ∷ 97 ∷ 116 ∷ 117 ∷ 115 ∷ []

abbrev pub content_length : List ℕ
content_length =
    99 ∷ 111 ∷ 110 ∷ 116 ∷ 101 ∷ 110 ∷ 116 ∷ 45 ∷ 108 ∷ 101 ∷ 110 ∷ 103 ∷ 116 ∷ 104 ∷ []

abbrev pub transfer_encoding : List ℕ
transfer_encoding =
    116 ∷ 114 ∷ 97 ∷ 110 ∷ 115 ∷ 102 ∷ 101 ∷ 114 ∷ 45 ∷ 101 ∷ 110 ∷ 99 ∷ 111 ∷ 100 ∷ 105 ∷ 110 ∷ 103
    ∷ []

abbrev pub trailers : List ℕ
trailers = 116 ∷ 114 ∷ 97 ∷ 105 ∷ 108 ∷ 101 ∷ 114 ∷ 115 ∷ []

abbrev pub http : List ℕ
http = 104 ∷ 116 ∷ 116 ∷ 112 ∷ []

abbrev pub https : List ℕ
https = 104 ∷ 116 ∷ 116 ∷ 112 ∷ 115 ∷ []
