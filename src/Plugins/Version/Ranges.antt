-- ===== src/Plugins/Version/Ranges.antt =====
-- What the range tokens of packages/sdk/src/plugins/registry.ts mean.
use kitstack.Base.{◌≡◌, ◌≤◌, ◌<◌, ◌↔◌, ◌⊎◌, true, arith}
use kitstack.Plugins.Version.{
  SemVer, PartialVersion, compare_versions, satisfies_parsed, caret, tilde, plain, less, greater,
  less_equal, greater_equal,
}

-- A caret range, of the first number that is not zero: that number is the candidate's too, and the
-- numbers after it are not before the range's.
pub caret_iff :
    (c : SemVer) (p : PartialVersion)
    → (satisfies_parsed c caret p ≡ true) ↔ (
        (0 < p.version.major
          × (c.major ≡ p.version.major)
          × ((p.version.minor < c.minor)
              ⊎ ((c.minor ≡ p.version.minor) × (p.version.patch ≤ c.patch))))
        ⊎ ((p.version.major ≡ 0)
            × (0 < p.version.minor)
            × (c.major ≡ 0)
            × (c.minor ≡ p.version.minor)
            × (p.version.patch ≤ c.patch))
        ⊎ ((p.version.major ≡ 0)
            × (p.version.minor ≡ 0)
            × (c.major ≡ 0)
            × (c.minor ≡ 0)
            × (c.patch ≡ p.version.patch)))
unfolding satisfies_parsed compare_versions
caret_iff c p = ground arith

-- A tilde range, however many parts it has: the same major and minor number, and a patch that is not
-- before the range's. An absent part counts as zero.
pub tilde_iff :
    (c : SemVer) (p : PartialVersion)
    → (satisfies_parsed c tilde p ≡ true)
      ↔ ((c.major ≡ p.version.major) × (c.minor ≡ p.version.minor) × (p.version.patch ≤ c.patch))
unfolding satisfies_parsed compare_versions
tilde_iff c p = ground arith

-- A version without an operator: the candidate has the parts that are given.
pub plain_iff :
    (c : SemVer) (p : PartialVersion)
    → (satisfies_parsed c plain p ≡ true) ↔ (
        ((p.precision ≡ 1) × (c.major ≡ p.version.major))
        ⊎ ((p.precision ≡ 2) × (c.major ≡ p.version.major) × (c.minor ≡ p.version.minor))
        ⊎ ((¬ (p.precision ≡ 1))
            × (¬ (p.precision ≡ 2))
            × (c.major ≡ p.version.major)
            × (c.minor ≡ p.version.minor)
            × (c.patch ≡ p.version.patch)))
unfolding satisfies_parsed compare_versions
plain_iff c p = ground arith

abbrev pub IsBefore : SemVer → SemVer → Type 0
IsBefore l r =
    (l.major < r.major)
    ⊎ ((l.major ≡ r.major) × (l.minor < r.minor))
    ⊎ ((l.major ≡ r.major) × (l.minor ≡ r.minor) × (l.patch < r.patch))

-- The four comparators are the order by major, minor and patch number: `<` and `>` strictly, and
-- `>=` and `<=` their negations.
pub comparators_iff :
    (c : SemVer) (p : PartialVersion)
    → ((satisfies_parsed c less p ≡ true) ↔ IsBefore c p.version)
      × ((satisfies_parsed c greater p ≡ true) ↔ IsBefore p.version c)
      × ((satisfies_parsed c greater_equal p ≡ true) ↔ ¬ IsBefore c p.version)
      × ((satisfies_parsed c less_equal p ≡ true) ↔ ¬ IsBefore p.version c)
unfolding satisfies_parsed compare_versions
comparators_iff c p = (ground arith, ground arith, ground arith, ground arith)
