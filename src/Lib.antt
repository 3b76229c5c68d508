-- ===== src/Lib.antt =====
-- Verification of the check-in server: the Go program under server/ of the repository, the back
-- end of a social app in which the members of a group post photos and clips of where they are.
--
-- The parts. server/internal/api holds the HTTP handlers with their rate limiters and
-- schedulers; server/internal/db the queries and, as pure functions over the fetched rows, the
-- selection and clustering behind the recaps, the events and the timeline;
-- server/internal/storage the sanitizers through which every upload passes before it is stored;
-- server/internal/gazetteer, push, auth and config serve these. The handlers call storage and
-- db, and every request passes a rate limiter first.
--
-- The files.
--     Prelude and its children: names that the files share, Boolean tests on numbers and
--     texts, lists over the native numbers, and results of code that may fail, panic or be
--     short of fuel.
--     Slice: Go byte slices as lists of bytes: reads, slices and in-place clears, which panic
--     out of range.
--     RateLimit: server/internal/api/ratelimit.go. RateLimiter and Bucket are the structs,
--     new_rate_limiter, evict_idle and allow the functions; a map is a function into Option,
--     and a call returns the new limiter. RateLimit/Refines compares allow with an ideal
--     bucket for each key, RateLimit/Sweeps with a limiter that forgets no bucket,
--     RateLimit/Window counts what a schedule of calls gets through, RateLimit/Sizing holds
--     newContentLimits.
--     Storage/Gif: server/internal/storage/gif.go. sanitize_gif, walk, image_block,
--     extension_block, skip_sub_blocks and is_animation_extension are sanitizeGIF (its loop
--     and the two cases that are long), skipSubBlocks and isAnimationExtension; a call that
--     writes to the slice returns the new bytes. Storage/Gif/Grammar states independently
--     which files are accepted and what becomes of them; Chains, Extension, Image, Walk,
--     Decide, Header and Correct prove the two equal part by part, and Idempotent draws the
--     consequences.
--
--     Sorting: sort.Slice as an insertion sort by a strict order, counts of elements and what
--     a sort and a cut keep of them.
--     Db/RecapSelect: the collage panel of server/internal/db/recap_select.go. RecapCandidate
--     and RecapCard are the structs, select_collage_cards is selectCollageCards, with
--     guarantee, fill and cards_from as its loops. Order, Passes, Everyone, Cards and Ranks
--     prove who is in the panel, within which bounds, and in which order. People holds
--     recap_people, which is recapPeople, and its theorem. Awards holds award_rankings and
--     best_award_per_member, which are awardRankings and bestAwardPerMember; Awards/Places
--     proves what the ranks in an award are, and Awards/Titles which title a member gets.
--
--     Storage/Mp4: server/internal/storage/mp4.go. `d` is the buffer, a slice of it a stretch
--     from `lo` to `hi`, and a write returns the new buffer. parse_boxes, parse_indexed_boxes
--     and find_box are parseBoxes, parseIndexedBoxes and findBox; Storage/Mp4/Strip holds
--     strip_location_metadata, strip_boxes, strip_meta_box, blank_ilst_value and
--     metadata_keys, which are stripLocationMetadata and the functions of those names.
--     strings.ToLower is a parameter. Boxes shows the parser to stay in bounds, Layout on
--     which bytes its result hangs, Blanked what a clear keeps; Strip/Safe and Strip/Clean are
--     about the whole, Strip/Audit is an independent check for privacy boxes.
--     Storage/Mp4/Probe holds probe_mp4 (probeMP4) with has_video_brand, track_dimensions,
--     track_duration_ms and sample_table_duration, the functions of those names; Mp4Decoder is
--     mp4.Unmarshal of go-mp4, and Probe/Safe shows that the probe returns and what it
--     accepts. Durations holds scale_to_ms, which is scaleToMs, on uint64 with its wrap-around
--     written out.
--
--     Clock and Maps: times as nanoseconds since the 1st of March of the year 0, with the
--     calendar functions of Go's time that the code calls, and Go's maps and sets as
--     association lists and lists.
--     Db/Events: server/internal/db/events_cluster.go. EventPostRow is eventPostRow;
--     compute_home_area and compute_home_bases are the two scans for where members live. Build
--     holds build_event, which is buildEvent; Trips trip_runs and detect_trips, which are
--     tripRuns and detectTrips; Detect detect_gatherings and detect_events. Texts is what the
--     file uses of Go's strings. Keys proves that the pick of a most common key does not
--     depend on the order of a Go map, Trips/Runs and Trips/Claimed what a trip is made of,
--     Detect/Disjoint what the events of a feed are.
--     Db/Timeline: server/internal/db/timeline.go. bucket_timeline, build_timeline_month and
--     timeline_month_posts are bucketTimeline, buildTimelineMonth and TimelineMonthPosts,
--     timeline is Timeline; what the queries return is an argument. Months is about the
--     buckets, Stats about one month, Page about the page of its posts, and Agree shows that
--     the page of a month and the timeline count the same posts. Clock/Calendar and
--     Clock/Months are the calendar's own theorems.
--     Api: replies and fallible calls of the handlers under server/internal/api.
--     Api/Recap: server/internal/api/recap.go. recap_due_period and validate_recap_request are
--     recapDuePeriod and validateRecapRequest; strings.TrimSpace and time.Parse are
--     parameters. Due, Valid and Accepted are about these. Run holds run_recap_tick,
--     generate_scheduled_recap and handle_generate_recap, which are runRecapTick,
--     generateScheduledRecap and handleGenerateRecap, cut into named steps at each call that
--     may fail; RecapDb is what they call of server/internal/db. Run/Ticks and Run/Requests
--     are about what they do.
--     Storage/Image: the part of server/internal/storage/storage.go that is about still
--     images. exif_orientation with jpeg_segment and parse_exif_orientation is the walk for
--     the EXIF orientation, scaled_size the arithmetic of downscale, and rotate, flip and
--     apply_orientation copy a picture pixel by pixel. Exif is about the walk, Scale about the
--     size; Upright proves what the copying loops do, and Orientation that a photo comes out
--     as the table of EXIF says.
--     Storage/Media: the pipelines of server/internal/storage/storage.go. save_media,
--     save_image, save_gif and save_video are SaveMedia, saveImage, saveGIF and saveVideo up
--     to the file that they write; they use Storage/Gif, Storage/Mp4 and Storage/Image, and
--     Codecs is the rest of what they call. Safe joins the theorems of these on what is
--     stored.
--     Api/Digest: server/internal/api/digest.go. run_digest is runDigest, with what it does
--     for one member as digest_one; DigestDb is what it calls.
--     Gazetteer: server/internal/gazetteer/gazetteer.go. read_header and the reads like
--     read_uint64_at are readHeader and readUint64At, lookup with search_hash and scan is the
--     lookup of an index; Candidates has candidates (Candidates), with table_candidates and
--     by_tiers for the method of that name, and resolve; Load has load. Packed is the layout
--     of the dataset, with Columns, Preamble and Cells for what the reads find in it; Found is
--     about the search, Matching and Best about the two exported functions, and Named says in
--     names what Matching says in hashes.
--     Db/Recap: server/internal/db/recap.go with the payload of server/internal/db/models.go.
--     build_recap is BuildRecap on the answers of its reads, with recap_stats and payload_of;
--     it uses Db/RecapSelect. Viewer has filter_recap_for_viewer (FilterRecapForViewer), and
--     Post has create_recap_post (CreateRecapPost) with find_recap_duplicate, as one step on
--     the tables posts and recaps. Totals, Consistent, Viewer/Filtered, Post/Once and
--     Post/Twice prove what these promise.
--     Api/Session: the middleware of server/internal/api/helpers.go, with the statements of
--     server/internal/db/queries.go on sessions. require_auth, slide_session, require_admin
--     and rate_limit_user are the functions of these names; user_for_token, extend_session and
--     issue_session are UserForToken, ExtendSession and CreateSession. Admitted is about whom
--     require_auth lets through, Lifetime about how long a session lives.
--
--     Api/Settings: handleUpdateServer of server/internal/api/auth_handlers.go, as
--     handle_update_server with apply_to (applyTo of recapPatch). Bounded joins it with
--     Api/Recap/Due: what admins can set is what the scheduler assumes.
--     Db/Recap/Activity: aggregateMemberActivity, averagePostCount, awardCandidateFor and
--     recapAwardCandidates of server/internal/db/recap.go behind their reads, as the functions
--     of these names in snake_case; its candidates are what Db/RecapSelect/Awards judges.
--     Noted, Judged, Mean and Members prove what the entries are.
--
-- Bounds and fuel. Integers are the natural numbers: but for the durations in an MP4 file, which
-- are computed modulo 2 ^ 64, no quantity that is modelled comes near 2 ^ 63 (offsets are
-- bounded by the size of a file in memory, counts by the rows of a table). A loop that is no
-- recursion on a list takes fuel, one more than the bytes that are left; that this suffices is
-- proved wherever such a loop stands. Times are nanoseconds or seconds as numbers.
--
-- Not modelled of the server's own code: places, most handlers and queries. Not modelled: SQL
-- and the connection to PostgreSQL, HTTP transport and JSON, the file system, push delivery,
-- image codecs, and the Flutter client under app/. The rounding of float64 is not modelled:
-- token counts and the mean of posts are exact.
pub mod Api
pub mod Clock
pub mod Db
pub mod Gazetteer
pub mod Maps
pub mod Prelude
pub mod RateLimit
pub mod Slice
pub mod Sorting
pub mod Storage
