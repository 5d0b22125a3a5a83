-- ===== src/Web/Routes/Served.antt =====
-- internal/web/server.go: what the requests of any paths, methods and bodies do to the server.
use mathlib.Core.Option
use sing_box_helper.Prelude.{ℕ, Bool, false, List, [], ◌∷◌, String, ◌==◌, ok, ◌≡◌, refl, arith}
use sing_box_helper.Platform.{Platform}
use sing_box_helper.Codec.{Codec, IsLawful}
use sing_box_helper.Files.{Faults}
use sing_box_helper.Logbuf.{Bytes, write}
use sing_box_helper.State.{load_settings}
use sing_box_helper.Web.Nodes.{handle_apply}
use sing_box_helper.Web.Preferences.{handle_settings}
use sing_box_helper.Web.Preferences.Kept.{IsUsable}
use sing_box_helper.Web.History.{handle_backups, handle_backups_restore}
use sing_box_helper.Web.Requests.{
  World, Reach, here, after, applied, configured, cleared, put_back, logged,
}
use sing_box_helper.Web.Requests.Settled.{IsSettled, load_settings-Reach}
use sing_box_helper.Web.Routes.{
  Page, status, preview, apply, test, settings, logs, backups, backups_restore, elsewhere, page_of,
  Decoders, Request, Around, handle_page, serve,
}

-- The methods that a page may change something for.
abbrev pub changes : Page → String → Bool
changes status method = false
changes preview method = false
changes apply method = method == "POST"
changes test method = false
changes settings method = method == "POST"
changes logs method = false
changes backups method = method == "DELETE"
changes backups_restore method = method == "POST"
changes elsewhere method = false

-- A request, or a write to the helper's own log.
pub data Event (k : Codec) : Type 0 where
  asked : Around k → Request → Event k
  noted : ℕ → Bytes → Event k

module _ (g : Platform) (k : Codec) (c : Decoders) where
  handle_page-unchanged :
      (p : Page) (x : Around k) (r : Request) (w : World k)
      → changes p r.method ≡ false
      → (handle_page g k c p x r w).1 ≡ w
  unfolding handle_page handle_apply handle_settings handle_backups handle_backups_restore
  handle_page-unchanged status x r (s, d) h = refl
  handle_page-unchanged preview x r (s, d) h = refl
  handle_page-unchanged apply x r (s, d) h = rw h refl
  handle_page-unchanged test x r (s, d) h = refl
  handle_page-unchanged settings x r (s, d) h = ground arith
  handle_page-unchanged logs x r (s, d) h = refl
  handle_page-unchanged backups x r (s, d) h = ground arith
  handle_page-unchanged backups_restore x r (s, d) h = rw h refl
  handle_page-unchanged elsewhere x r w h = refl

  -- Nothing changes by a request unless it is a post to the page of the apply, of the settings or of
  -- the restore, or a deletion on the page of the backups: neither the server nor the disk. A
  -- request with another method, such as a GET, never changes anything, whatever its path.
  pub serve-unchanged :
      (x : Around k) (r : Request) (w : World k)
      → changes (page_of r.path) r.method ≡ false
      → (serve g k c x r w).1 ≡ w
  unfolding serve
  serve-unchanged x r w h = handle_page-unchanged (page_of r.path) x r w h

  abbrev handled : Event k → World k → World k
  handled (asked x r) w = (serve g k c x r w).1
  handled (noted now p) (s, d) = (record s { logs = Option.map (write now p) s.logs }, d)

  abbrev pub handled_all : List (Event k) → World k → World k
  handled_all [] w = w
  handled_all (e ∷ es) w = handled_all es (handled e w)

  handle_page-Reach :
      (start : World k) (p : Page) (x : Around k) (r : Request) (w : World k)
      → Reach g k start w
      → Reach g k start (handle_page g k c p x r w).1
  unfolding handle_page
  handle_page-Reach start status x r (s, d) i = i
  handle_page-Reach start preview x r (s, d) i = i
  handle_page-Reach start apply x r (s, d) i =
      after (s, d) _ i (applied x.faults x.outside x.now x.at r.method (c.uri r.body) s d)
  handle_page-Reach start test x r (s, d) i = i
  handle_page-Reach start settings x r (s, d) i =
      after (s, d) _ i (configured x.faults x.outside.run x.now r.method (c.settings r.body) s d)
  handle_page-Reach start logs x r (s, d) i = i
  handle_page-Reach start backups x r (s, d) i =
      after (s, d) _ i (cleared x.faults r.method r.file s d)
  handle_page-Reach start backups_restore x r (s, d) i =
      after (s, d) _ i (put_back x.faults x.outside.run x.now r.method (c.file r.body) s d)
  handle_page-Reach start elsewhere x r w i = i

  handled_all-Reach :
      (start : World k) (es : List (Event k)) (w : World k)
      → Reach g k start w
      → Reach g k start (handled_all es w)
  unfolding serve
  handled_all-Reach start [] w i = i
  handled_all-Reach start (asked x r ∷ es) w i =
      handled_all-Reach start es _ (handle_page-Reach start (page_of r.path) x r w i)
  handled_all-Reach start (noted now p ∷ es) (s, d) i =
      handled_all-Reach start es _ (after (s, d) _ i (logged now p s d))

  -- After any sequence of requests, of any paths, methods and bodies and whichever calls fail in
  -- them, the settings in memory can be used, and they are those that the next start of the helper
  -- loads from the same settings file, if it can be read. At the start the settings file holds the
  -- settings in memory, they can be used, and the settings file is none of the other files, nor
  -- named as a backup. The encoders keep their documents.
  pub load_settings-handled_all :
      (law : IsLawful k) (f : Faults k.Content) (start : World k) (es : List (Event k))
      → IsSettled k start.0.settings_path start
      → f.read start.0.settings_path ≡ false
      → (load_settings k f start.0.settings_path (handled_all es start).1
          ≡ ok (handled_all es start).0.settings)
        × IsUsable (handled_all es start).0.settings
  load_settings-handled_all law f start es i readable =
      load_settings-Reach g k law f start (handled_all es start) i
        (handled_all-Reach start es start here) readable
