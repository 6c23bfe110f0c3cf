-- ===== src/Om/AssetRegistry/Spots.antt =====
-- Loading the spot pairs: the perpetuals stay.
use hyperliquid_cpp.Base.{ℕ, List, [], ◌∷◌, ◌==◌, if◌then◌else◌, length}
use hyperliquid_cpp.Base.Int.{ℤ}
use hyperliquid_cpp.Core.Json.{Json}
use hyperliquid_cpp.Om.AssetRegistry.{AssetInfo}
use hyperliquid_cpp.Om.AssetRegistry.SpotLoading.{spot_info}

pairs_of : List (ℤ × List ℕ) → List Json → List AssetInfo
pairs_of tokens [] = []
pairs_of tokens (pair ∷ pairs) =
    let rest = pairs_of tokens pairs in
    if length (spot_info tokens pair).name == 0 then rest else spot_info tokens pair ∷ rest
