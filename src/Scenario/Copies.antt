-- ===== src/Scenario/Copies.antt =====
-- What the downloads of a sandbox copy and report at most.
use gke_quick_prototype.Prelude.{
  ℕ, zero, suc, ◌+◌, ◌*◌, ◌≤◌, inl, inr, Option-cases, Option, none, some, arith,
}
use gke_quick_prototype.Prelude.Text.{Text}
use gke_quick_prototype.Provision.{Result, ok, err}
use gke_quick_prototype.Scenario.{
  Fetch, Download, Downloads, saved, responded, download_to_file, counted, download_count,
  download_size, download_loop, no_downloads, DownloadEnv, phase_download,
}

-- No body of a download is longer.
abbrev pub IsLimit : ℕ → DownloadEnv → Type 0
IsLimit limit env = (i : ℕ) → (env.fetch i).copied ≤ limit

saved-le :
    (copied : ℕ) (create_error copy_error : Option Text)
    → (saved copied create_error copy_error).1 ≤ copied
unfolding saved
saved-le copied (some e) copy_error = omega arith
saved-le copied none (some e) = omega arith
saved-le copied none none = omega arith

responded-le : (f : Fetch) (r : Result ℕ) → (responded f r).1 ≤ f.copied
unfolding responded
responded-le f (err e) = omega arith
responded-le f (ok code) = ground (arith, saved-le f.copied f.create_error f.copy_error)

download_to_file-le : (f : Fetch) → (download_to_file f).1 ≤ f.copied
unfolding download_to_file responded
download_to_file-le f = elim (Option-cases f.request_error) [
  | inl e ↦ rw e (responded-le f f.response)
  | inr (x, e) ↦ rw e (omega arith)
]

-- What so many rounds add to the downloads at most.
pub record IsWithin (limit rounds : ℕ) (d u : Downloads) : Type 0 where
  pub reported_le : u.total_downloaded ≤ d.total_downloaded + rounds * download_size
  pub copied_le : u.copied ≤ d.copied + rounds * limit

counted-IsWithin :
    (limit : ℕ) (o : Download) (d : Downloads) → o.1 ≤ limit → IsWithin limit 1 d (counted o d)
unfolding counted
counted-IsWithin limit (none, n) d h = record {
  reported_le = omega arith;
  copied_le = omega (arith, h);
}
counted-IsWithin limit (some e, n) d h = record {
  reported_le = omega arith;
  copied_le = omega (arith, h);
}

download_loop-IsWithin :
    (limit left i : ℕ) (env : DownloadEnv) (d : Downloads)
    → IsLimit limit env
    → IsWithin limit left d (download_loop left env i d)
unfolding download_loop
download_loop-IsWithin limit zero i env d h = record {
  reported_le = omega arith;
  copied_le = omega arith;
}
download_loop-IsWithin limit (suc left) i env d h =
    let o = download_to_file (env.fetch i) in
    let one = counted-IsWithin limit o d (omega (arith, download_to_file-le (env.fetch i), h i)) in
    let more = download_loop-IsWithin limit left (i + 1) env (counted o d) h in
    record {
      reported_le = ground (arith, one.reported_le, more.reported_le);
      copied_le = ground (arith, one.copied_le, more.copied_le);
    }

pub phase_download-IsWithin :
    (limit : ℕ) (env : DownloadEnv)
    → IsLimit limit env
    → IsWithin limit download_count no_downloads (phase_download env)
unfolding phase_download
phase_download-IsWithin limit env h =
    let all = download_loop-IsWithin limit download_count 0 env no_downloads h in
    record {
      reported_le = ground (arith, all.reported_le);
      copied_le = ground (arith, all.copied_le);
    }
