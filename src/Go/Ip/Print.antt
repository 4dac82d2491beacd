-- ===== src/Go/Ip/Print.antt =====
-- `net.IPv4(a, b, c, d).To4().String()`
use kwrt_net_manager.Prelude.{ℕ, ◌+◌, ◌/◌, ◌%◌, [], ◌∷◌, ◌++◌, Str, ltb, if◌then◌else◌}

-- An octet in decimal, with no leading zero.
unfoldable pub octet : ℕ → Str
octet n =
    if ltb n 10
    then (48 + n) ∷ []
    else if ltb n 100
    then (48 + n / 10) ∷ (48 + n % 10) ∷ []
    else (48 + n / 100) ∷ (48 + n / 10 % 10) ∷ (48 + n % 10) ∷ []

unfoldable pub dotted : ℕ → ℕ → ℕ → ℕ → Str
dotted a b c d = octet a ++ (b'.' ∷ (octet b ++ (b'.' ∷ (octet c ++ (b'.' ∷ octet d)))))
