-- ===== src/Words.antt =====
-- packages/daemon/src/word-list.ts: the words of a peer handle.
use Prim.Native.String.{String}
use mathlib.Core.List.{List, [], ◌∷◌}

unfoldable pub word_list : List String
word_list =
    "krait" ∷ "cobra" ∷ "viper" ∷ "mamba" ∷ "asp" ∷ "adder" ∷ "boa" ∷ "python" ∷ "fox" ∷ "wolf"
    ∷ "lynx" ∷ "puma" ∷ "tiger" ∷ "jaguar" ∷ "leopard" ∷ "panther" ∷ "eagle" ∷ "hawk" ∷ "falcon"
    ∷ "owl" ∷ "raven" ∷ "crow" ∷ "kite" ∷ "osprey" ∷ "shark" ∷ "orca" ∷ "whale" ∷ "dolphin" ∷ "seal"
    ∷ "otter" ∷ "walrus" ∷ "narwhal" ∷ "bear" ∷ "badger" ∷ "wolverine" ∷ "marten" ∷ "mink"
    ∷ "ferret" ∷ "stoat" ∷ "weasel" ∷ "hare" ∷ "lemur" ∷ "sloth" ∷ "koala" ∷ "panda" ∷ "tapir"
    ∷ "okapi" ∷ "oryx" ∷ "gazelle" ∷ "antelope" ∷ "ibex" ∷ "chamois" ∷ "bison" ∷ "aurochs" ∷ "yak"
    ∷ "moose" ∷ "caribou" ∷ "reindeer" ∷ "elk" ∷ "stag" ∷ "roe" ∷ "fawn" ∷ "doe" ∷ "buck" ∷ "crane"
    ∷ "heron" ∷ "stork" ∷ "ibis" ∷ "flamingo" ∷ "pelican" ∷ "gannet" ∷ "cormorant" ∷ "puffin"
    ∷ "auk" ∷ "tern" ∷ "gull" ∷ "plover" ∷ "sandpiper" ∷ "curlew" ∷ "snipe" ∷ "finch" ∷ "siskin"
    ∷ "linnet" ∷ "sparrow" ∷ "wren" ∷ "robin" ∷ "thrush" ∷ "lark" ∷ "magpie" ∷ "jackdaw" ∷ "rook"
    ∷ "jay" ∷ "shrike" ∷ "oriole" ∷ "starling" ∷ "swallow" ∷ "swift" ∷ "martin" ∷ "kingfisher"
    ∷ "hoopoe" ∷ "bee" ∷ "wasp" ∷ "hornet" ∷ "ant" ∷ "beetle" ∷ "cricket" ∷ "mantis" ∷ "cicada"
    ∷ "moth" ∷ "newt" ∷ "gecko" ∷ "iguana" ∷ "anole" ∷ "skink" ∷ "tortoise" ∷ "terrapin" ∷ "turtle"
    ∷ "frog" ∷ "toad" ∷ "salmon" ∷ "trout" ∷ "pike" ∷ "perch" ∷ "bass" ∷ "carp" ∷ "eel" ∷ "ray"
    ∷ "skate" ∷ "tuna" ∷ "mackerel" ∷ "sardine" ∷ "anchovy" ∷ "halibut" ∷ "cod" ∷ "haddock"
    ∷ "plaice" ∷ "crab" ∷ "lobster" ∷ "shrimp" ∷ "krill" ∷ "squid" ∷ "cuttle" ∷ "octopus"
    ∷ "nautilus" ∷ "coral" ∷ "sponge" ∷ "urchin" ∷ "starfish" ∷ "jelly" ∷ "anemone" ∷ "limpet"
    ∷ "whelk" ∷ "cedar" ∷ "pine" ∷ "fir" ∷ "larch" ∷ "oak" ∷ "ash" ∷ "beech" ∷ "birch" ∷ "elm"
    ∷ "maple" ∷ "rowan" ∷ "holly" ∷ "yew" ∷ "hazel" ∷ "aspen" ∷ "poplar" ∷ "willow" ∷ "walnut"
    ∷ "chestnut" ∷ "cherry" ∷ "plum" ∷ "pear" ∷ "apple" ∷ "fig" ∷ "thyme" ∷ "sage" ∷ "mint"
    ∷ "basil" ∷ "chive" ∷ "parsley" ∷ "fennel" ∷ "dill" ∷ "sorrel" ∷ "nettle" ∷ "clover" ∷ "thistle"
    ∷ "heather" ∷ "gorse" ∷ "broom" ∷ "fern" ∷ "moss" ∷ "lichen" ∷ "reed" ∷ "sedge" ∷ "rush"
    ∷ "iris" ∷ "lily" ∷ "tulip" ∷ "crocus" ∷ "daisy" ∷ "poppy" ∷ "aster" ∷ "pansy" ∷ "violet"
    ∷ "rose" ∷ "peony" ∷ "amber" ∷ "jade" ∷ "pearl" ∷ "opal" ∷ "topaz" ∷ "onyx" ∷ "agate" ∷ "flint"
    ∷ "slate" ∷ "shale" ∷ "marble" ∷ "granite" ∷ "basalt" ∷ "pumice" ∷ "quartz" ∷ "mica" ∷ "cinder"
    ∷ "ember" ∷ "spark" ∷ "flame" ∷ "blaze" ∷ "flicker" ∷ "glow" ∷ "gleam" ∷ "mist" ∷ "haze" ∷ "fog"
    ∷ "cloud" ∷ "gale" ∷ "breeze" ∷ "zephyr" ∷ "storm" ∷ "thunder" ∷ "tempest" ∷ "frost" ∷ "rime"
    ∷ "sleet" ∷ "drizzle" ∷ "shower" ∷ "monsoon" ∷ "tide" ∷ "wave" ∷ "surf" ∷ "foam" ∷ "eddy"
    ∷ "current" ∷ "spring" ∷ "creek" ∷ []
