-- ===== src/Upstream/Urls/Laws.antt =====
-- The URLs of crates/yb-providers/src/route.rs do not depend on whether the base has the version.
use sovereign_gateway.Base.{String, ◌≡◌, Bool, true, false, ◌||◌, some, ◌==◌, arith}
use Prim.Native.String.{◌++◌}
use text.Mathlib.TextLemmas.{append_assoc}
use sovereign_gateway.Base.Text.{ends_with, ends_with-append}
use sovereign_gateway.Upstream.Urls.{join_url, trim_base, build_url, chat_target}
use sovereign_gateway.Core.Formats.{WireFormat}

join_url_versioned :
    (base version endpoint : String)
    → (base == version) ≡ false
    → ends_with base ("/" ++ version) ≡ false
    → join_url (base ++ ("/" ++ version)) version endpoint ≡ join_url base version endpoint
unfolding join_url
join_url_versioned base version endpoint h k =
    let full : (((base ++ ("/" ++ version)) == version)
          || ends_with (base ++ ("/" ++ version)) ("/" ++ version))
        ≡ true =
      ground (arith, ends_with-append base ("/" ++ version)) in
    rw (
      full,
      h,
      k,
      append_assoc base ("/" ++ version) ("/" ++ endpoint),
      append_assoc "/" version ("/" ++ endpoint),
    )

-- For a chat format, a configured base with the format's version segment makes the URL that the base
-- without the segment makes, where neither ends in a slash and the shorter one does not itself end
-- with the version: the version is never doubled.
pub build_url_versioned :
    (fmt : WireFormat) (base model : String) (stream : Bool)
    → trim_base base ≡ base
    → trim_base (base ++ ("/" ++ (chat_target fmt model stream).1.0))
      ≡ base ++ ("/" ++ (chat_target fmt model stream).1.0)
    → (base == (chat_target fmt model stream).1.0) ≡ false
    → ends_with base ("/" ++ (chat_target fmt model stream).1.0) ≡ false
    → build_url fmt (some (base ++ ("/" ++ (chat_target fmt model stream).1.0))) model stream
      ≡ build_url fmt (some base) model stream
unfolding build_url
build_url_versioned fmt base model stream t u h k =
    rw (t, u)
      (join_url_versioned base (chat_target fmt model stream).1.0 (chat_target fmt model stream).1.1
        h k)
