-- ===== src/Examples/Protocol.antt =====
-- A printed line, and names in different cases.
use irc.Common.{true, ◌≡◌, ◌↔◌, not, ◌&&◌, refl, [], ◌∷◌, ◌++◌, codes}
use irc.State.Names.{irc_less}
use irc.State.Names.Order.{fold_case, irc_less-same_iff}
use irc.Protocol.Parser.{parse, upper_command, to_upper}
use irc.Protocol.Parser.Printing.{parse-print}

parse-print_example : parse (codes "kick #42 bob :be nice: please" ++ 13 ∷ 10 ∷ []) ≡ record {
  prefix = [];
  command = codes "KICK";
  params = codes "#42" ∷ codes "bob" ∷ codes "be nice: please" ∷ [];
}
unfolding upper_command to_upper
parse-print_example =
    parse-print [] (codes "kick") (codes "#42" ∷ codes "bob" ∷ []) (codes "be nice: please") refl
      refl refl

irc_less-same_iff_example :
    ((not (irc_less (codes "Al[ce") (codes "aL{CE"))
        && not (irc_less (codes "aL{CE") (codes "Al[ce")))
      ≡ true)
    ↔ (fold_case (codes "Al[ce") ≡ fold_case (codes "aL{CE"))
irc_less-same_iff_example = irc_less-same_iff (codes "Al[ce") (codes "aL{CE")
